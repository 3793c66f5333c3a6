-- ===== src/Config/Loader/Brokers.antt =====
-- KAFKA_BROKERS in internal/config/loader.go.
use tetragon_kafka_adapter.Prelude.{
  ℕ, zero, suc, ◌<◌, ◌≡◌, ◌≢◌, refl, ◌∙◌, ap, true, false, List, [], ◌∷◌, ◌++◌, map, Text, str,
  is_empty, is_ascii, replicate, arith,
}
use tetragon_kafka_adapter.Prelude.Every.{All}
use tetragon_kafka_adapter.Config.Loader.{
  is_space, trim_left, trim_right, trim_space, split_comma, Settings, bind_env_vars,
}

-- A byte of a host or port: ASCII, no white space, no comma.
abbrev pub IsWordByte : ℕ → Type 0
IsWordByte c = (c < 128) × (is_space c ≡ false) × (c ≢ b',')

-- A broker with the spaces written around it.
pub record Written : Type 0 where
  pub before : ℕ
  pub broker : Text
  pub after : ℕ

abbrev pub IsWord : Written → Type 0
IsWord w = All IsWordByte w.broker × (w.broker ≢ [])

abbrev pub pad : Written → Text
pad w = replicate w.before b' ' ++ (w.broker ++ replicate w.after b' ')

abbrev pub join_commas : List Written → Text
join_commas [] = []
join_commas (w ∷ []) = pad w
join_commas (w ∷ v ∷ ws) = pad w ++ (b',' ∷ join_commas (v ∷ ws))

trim_left-pad : (n : ℕ) (s : Text) → trim_left (replicate n b' ' ++ s) ≡ trim_left s
unfolding trim_left
trim_left-pad zero s = refl
trim_left-pad (suc n) s = trim_left-pad n s

trim_left-word : (s t : Text) → All IsWordByte s → s ≢ [] → trim_left (s ++ t) ≡ s ++ t
unfolding trim_left
trim_left-word [] t h n = absurd (n refl)
trim_left-word (c ∷ s) t h n = rw h.0.1 refl

trim_right-spaces : (n : ℕ) → trim_right (replicate n b' ') ≡ []
unfolding trim_right
trim_right-spaces zero = refl
trim_right-spaces (suc n) = rw (trim_right-spaces n) refl

trim_right-word : (s : Text) (n : ℕ) → All IsWordByte s → trim_right (s ++ replicate n b' ') ≡ s
unfolding trim_right
trim_right-word [] n h = trim_right-spaces n
trim_right-word (c ∷ s) n h = rw (trim_right-word s n h.1, h.0.1) (ground arith)

ascii-spaces : (n : ℕ) → is_ascii (replicate n b' ') ≡ true
ascii-spaces zero = refl
ascii-spaces (suc n) = ascii-spaces n

ascii-word : (s t : Text) → All IsWordByte s → is_ascii t ≡ true → is_ascii (s ++ t) ≡ true
ascii-word [] t h a = a
ascii-word (c ∷ s) t h a = ground (arith, ascii-word s t h.1)

ascii-pad : (n : ℕ) (t : Text) → is_ascii t ≡ true → is_ascii (replicate n b' ' ++ t) ≡ true
ascii-pad zero t a = a
ascii-pad (suc n) t a = ascii-pad n t a

trim_space-pad :
    (unicode_trim : Text → Text) (w : Written)
    → IsWord w
    → trim_space unicode_trim (pad w) ≡ w.broker
unfolding trim_space
trim_space-pad unicode_trim w h =
    let spaces = replicate w.after b' ' in
    let a : is_ascii (pad w) ≡ true =
      ascii-pad w.before (w.broker ++ spaces)
        (ascii-word w.broker spaces h.0 (ascii-spaces w.after)) in
    rw a (
      ap trim_right
        (trim_left-pad w.before (w.broker ++ spaces) ∙ trim_left-word w.broker spaces h.0 h.1)
      ∙ trim_right-word w.broker w.after h.0)

abbrev HasNoComma : Text → Type 0
HasNoComma s = All (λ c. c ≢ b',') s

split-one : (s : Text) → HasNoComma s → split_comma s ≡ s ∷ []
unfolding split_comma
split-one [] h = refl
split-one (c ∷ s) h = ground (arith, split-one s h.1)

split-more : (s t : Text) → HasNoComma s → split_comma (s ++ b',' ∷ t) ≡ s ∷ split_comma t
unfolding split_comma
split-more [] t h = refl
split-more (c ∷ s) t h = ground (arith, split-more s t h.1)

spaces-HasNoComma : (n : ℕ) (t : Text) → HasNoComma t → HasNoComma (replicate n b' ' ++ t)
spaces-HasNoComma zero t h = h
spaces-HasNoComma (suc n) t h = ((λ e. omega (arith, e)), spaces-HasNoComma n t h)

only_spaces : (n : ℕ) → HasNoComma (replicate n b' ')
only_spaces zero = tt
only_spaces (suc n) = ((λ e. omega (arith, e)), only_spaces n)

word-HasNoComma : (s t : Text) → All IsWordByte s → HasNoComma t → HasNoComma (s ++ t)
word-HasNoComma [] t h n = n
word-HasNoComma (c ∷ s) t h n = (h.0.2, word-HasNoComma s t h.1 n)

pad-HasNoComma : (w : Written) → IsWord w → HasNoComma (pad w)
pad-HasNoComma w h =
    spaces-HasNoComma w.before _ (word-HasNoComma w.broker _ h.0 (only_spaces w.after))

split-join :
    (unicode_trim : Text → Text) (w : Written) (ws : List Written)
    → All IsWord (w ∷ ws)
    → map (trim_space unicode_trim) (split_comma (join_commas (w ∷ ws)))
      ≡ map (λ v. v.broker) (w ∷ ws)
split-join unicode_trim w [] h =
    rw (split-one (pad w) (pad-HasNoComma w h.0), trim_space-pad unicode_trim w h.0) refl
split-join unicode_trim w (v ∷ ws) h =
    rw
      (
        split-more (pad w) (join_commas (v ∷ ws)) (pad-HasNoComma w h.0),
        trim_space-pad unicode_trim w h.0,
      )
      (ap (λ l. w.broker ∷ l) (split-join unicode_trim v ws h.1))

some_text : (n : ℕ) (s t : Text) → s ≢ [] → is_empty (replicate n b' ' ++ (s ++ t)) ≡ false
some_text zero [] t h = absurd (h refl)
some_text zero (c ∷ s) t h = refl
some_text (suc n) s t h = refl

non_empty : (s t : Text) → is_empty s ≡ false → is_empty (s ++ t) ≡ false
non_empty [] t h = cc
non_empty (c ∷ s) t h = refl

some_brokers :
    (w : Written) (ws : List Written) → IsWord w → is_empty (join_commas (w ∷ ws)) ≡ false
some_brokers w [] h = some_text w.before w.broker _ h.1
some_brokers w (v ∷ ws) h =
    non_empty (pad w) (b',' ∷ join_commas (v ∷ ws)) (some_text w.before w.broker _ h.1)

-- If KAFKA_BROKERS holds at least one broker, each of ASCII bytes other than white space and comma,
-- with commas between them and any spaces around each, then exactly these brokers, in order,
-- override kafka.brokers.
pub bind_env_vars-join_commas :
    (unicode_trim getenv : Text → Text) (v : Settings) (w : Written) (ws : List Written)
    → getenv (str "KAFKA_BROKERS") ≡ join_commas (w ∷ ws)
    → All IsWord (w ∷ ws)
    → (bind_env_vars unicode_trim getenv v).overrides
      ≡ (str "kafka.brokers", map (λ u. u.broker) (w ∷ ws)) ∷ []
unfolding bind_env_vars
bind_env_vars-join_commas unicode_trim getenv v w ws e h =
    rw (e, some_brokers w ws h.0)
      (ap (λ l. (str "kafka.brokers", l) ∷ []) (split-join unicode_trim w ws h))
