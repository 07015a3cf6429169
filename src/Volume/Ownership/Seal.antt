-- ===== src/Volume/Ownership/Seal.antt =====
-- Sealing an ownership record and authenticating the sealed record.
use scaleway_file_storage_su.Prelude.{ℕ, zero, suc, ◌*◌, ◌≤◌, ◌≡◌, refl, arith, [], ◌∷◌, length}
use scaleway_file_storage_su.Prelude.Results.{ok}
use scaleway_file_storage_su.Prelude.Texts.{Text, text_eq_iff}
use scaleway_file_storage_su.Prelude.Strings.{has_prefix}
use scaleway_file_storage_su.Volume.Handle.{Codec, hex_prefix}
use scaleway_file_storage_su.Volume.OwnershipRecords.{DetailedOwnership, CompactOwnership}
use scaleway_file_storage_su.Volume.Ownership.{
  Sealer, checksum_of, validate_checksum, validate_detailed_ownership, validate_compact_ownership,
  seal_detailed, seal_compact, validate_detailed_payload, validate_compact_payload,
  detailed_checksum, compact_checksum,
}

length-hex_prefix : (n : ℕ) (bytes : Text) → n ≤ length bytes → length (hex_prefix n bytes) ≡ n * 2
unfolding hex_prefix
length-hex_prefix zero bytes h = refl
length-hex_prefix (suc n) [] h = absurd (omega arith)
length-hex_prefix (suc n) (b ∷ bytes) h = omega (arith, length-hex_prefix n bytes)

-- A checksum of a 32-byte digest is accepted where it is stored.
checksum-accepted :
    (codec : Codec) (payload : Text)
    → length (codec.sha256 payload) ≡ 32
    → validate_checksum (checksum_of codec payload) (checksum_of codec payload) ≡ ok tt
unfolding validate_checksum checksum_of has_prefix
checksum-accepted codec payload h = ground (
  arith,
  text_eq_iff (checksum_of codec payload) (checksum_of codec payload),
  length-hex_prefix 32 (codec.sha256 payload),
)

-- The payload checks do not read the checksum.
validate_detailed_payload-checksum :
    (sealer : Sealer) (r : DetailedOwnership) (checksum : Text)
    → validate_detailed_payload sealer (record r { content_checksum = checksum })
      ≡ validate_detailed_payload sealer (record r { content_checksum = [] })
unfolding validate_detailed_payload
validate_detailed_payload-checksum sealer r checksum = refl

validate_compact_payload-checksum :
    (sealer : Sealer) (r : CompactOwnership) (checksum : Text)
    → validate_compact_payload sealer (record r { content_checksum = checksum })
      ≡ validate_compact_payload sealer (record r { content_checksum = [] })
unfolding validate_compact_payload
validate_compact_payload-checksum sealer r checksum = refl

-- Where digests have 32 bytes, a detailed ownership record that Seal returns is authenticated by
-- Validate.
pub seal_detailed-validate :
    (sealer : Sealer) (r : DetailedOwnership) {s : DetailedOwnership}
    → ((bytes : Text) → length (sealer.codec.sha256 bytes) ≡ 32)
    → seal_detailed sealer r ≡ ok s
    → validate_detailed_ownership sealer s ≡ ok tt
unfolding seal_detailed validate_detailed_ownership detailed_checksum
seal_detailed-validate sealer r digest_length h =
    let payload = sealer.detailed_json (record r { content_checksum = [] }) in
    ground (
      arith,
      validate_detailed_payload-checksum sealer r (checksum_of sealer.codec payload),
      checksum-accepted sealer.codec payload (digest_length payload),
    )

-- Where digests have 32 bytes, a compact ownership record that Seal returns is authenticated by
-- Validate.
pub seal_compact-validate :
    (sealer : Sealer) (r : CompactOwnership) {s : CompactOwnership}
    → ((bytes : Text) → length (sealer.codec.sha256 bytes) ≡ 32)
    → seal_compact sealer r ≡ ok s
    → validate_compact_ownership sealer s ≡ ok tt
unfolding seal_compact validate_compact_ownership compact_checksum
seal_compact-validate sealer r digest_length h =
    let payload = sealer.compact_json (record r { content_checksum = [] }) in
    ground (
      arith,
      validate_compact_payload-checksum sealer r (checksum_of sealer.codec payload),
      checksum-accepted sealer.codec payload (digest_length payload),
    )
