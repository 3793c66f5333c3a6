-- ===== src/Kafka/Producer/Codecs.antt =====
-- The compression words of internal/config/validator.go and of internal/kafka/producer.go.
use tetragon_kafka_adapter.Prelude.{
  ◌≡◌, refl, sym, ap, ◌∙◌, ◌≢◌, ◌⊎◌, inl, inr, Text, str, text_eq_iff, Text-cases, to_lower, AnyOf,
  [], ◌∷◌, arith,
}
use tetragon_kafka_adapter.Config.{Config}
use tetragon_kafka_adapter.Config.Valid.{IsValid}
use tetragon_kafka_adapter.Kafka.Producer.{
  parse_compression, compression_none, compression_gzip, compression_snappy, compression_lz4,
  compression_zstd, CompressionCodec,
}

-- The word that names a codec.
pub codec_name : CompressionCodec → Text
codec_name compression_none = str "none"
codec_name compression_gzip = str "gzip"
codec_name compression_snappy = str "snappy"
codec_name compression_lz4 = str "lz4"
codec_name compression_zstd = str "zstd"

-- The producer uses the codec that a lower-case word names, and no compression for any word that is
-- not itself one of the four codec names, capitals included.
pub parse_compression-name :
    (s : Text)
    → (codec_name (parse_compression s) ≡ s)
      ⊎ ((parse_compression s ≡ compression_none)
          × (s ≢ str "gzip")
          × (s ≢ str "snappy")
          × (s ≢ str "lz4")
          × (s ≢ str "zstd"))
unfolding parse_compression codec_name
parse_compression-name s = ground (
  arith,
  text_eq_iff s (str "gzip"),
  text_eq_iff s (str "snappy"),
  text_eq_iff s (str "lz4"),
  text_eq_iff s (str "zstd"),
)

lower_name :
    (unicode : Text → Text) (c : CompressionCodec) → to_lower unicode (codec_name c) ≡ codec_name c
unfolding to_lower codec_name
lower_name unicode compression_none = refl
lower_name unicode compression_gzip = refl
lower_name unicode compression_snappy = refl
lower_name unicode compression_lz4 = refl
lower_name unicode compression_zstd = refl

named_of_AnyOf :
    (word : Text)
    → AnyOf word (str "none" ∷ str "gzip" ∷ str "snappy" ∷ str "lz4" ∷ str "zstd" ∷ [])
    → codec_name (parse_compression word) ≡ word
unfolding codec_name
named_of_AnyOf word h = ground (arith, parse_compression-name word)

-- In a valid configuration a compression word that strings.ToLower leaves as it is selects the
-- codec that it names, and any other word turns compression off.
pub compression_of_valid :
    (unicode : Text → Text) (cfg : Config)
    → IsValid unicode cfg
    → let word = cfg.kafka.compression in
      ((word ≡ to_lower unicode word) × (codec_name (parse_compression word) ≡ word))
      ⊎ ((word ≢ to_lower unicode word) × (parse_compression word ≡ compression_none))
compression_of_valid unicode cfg v =
    let word = cfg.kafka.compression in
    elim (Text-cases word (to_lower unicode word)) [
      | inl lower ↦ inl (lower, named_of_AnyOf word (rw (← lower) at v.kafka.compression_ok))
      | inr capital ↦ inr (
        capital,
        elim (parse_compression-name word) [
          | inl named ↦ absurd (
              capital (
                sym named
                ∙ sym (lower_name unicode (parse_compression word))
                ∙ ap (to_lower unicode) named))
          | inr other ↦ other.0
        ],
      )
    ]
