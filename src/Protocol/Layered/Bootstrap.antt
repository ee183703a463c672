-- ===== src/Protocol/Layered/Bootstrap.antt =====
-- The bootstrap field of a layered frame, packed and unpacked.
use screen_airdrop.Prelude.{
  ℕ, ◌+◌, ◌/◌, ◌%◌, ◌<◌, ◌≤◌, ◌≡◌, ◌⊎◌, refl, sym, subst, ap, ◌∙◌, true, false, List, [], ◌∷◌, ◌++◌,
  ◌==◌, ==_refl, ltb, length, take, drop, arith, inl, inr, length-append,
}
use screen_airdrop.Prelude.Result.{ok}
use screen_airdrop.Coding.Payload.{Payload}
use screen_airdrop.Wire.{
  struct_pack, struct_unpack, struct_size, from_bytes, from-to_bytes, Fits, packed,
  struct_pack-packed, struct_unpack_exact, take-packed, drop-packed, long-packed, length-packed,
}
use screen_airdrop.Wire.Crc.{crc32}
use screen_airdrop.Protocol.Layered.{
  BootstrapFields, layered_magic, layered_version, profile_dense, profile_robust, bootstrap_format,
  profile_wire_id, profile_id_from_wire_id, packed_mode, pack_without_crc, pack_bootstrap,
  bootstrap_of, check_bootstrap, unpack_bootstrap,
}
use mathlib.Core.List.{append_assoc}

-- The fields of a bootstrap that the protocol sends.
pub record IsBootstrap (f : BootstrapFields) : Type 0 where
  pub magic : f.magic ≡ layered_magic
  pub version : f.version ≡ layered_version
  pub frame_type : f.frame_type < 3
  pub short_session_tag : f.short_session_tag < 65536
  pub body_profile_id : (f.body_profile_id ≡ profile_dense) ⊎ (f.body_profile_id ≡ profile_robust)
  pub payload_len : f.payload_len < 65536
  pub body_mask_id : f.body_mask_id < 8

-- A profile's number on the wire, and back.
wire-profile :
    (id : ℕ)
    → (id ≡ profile_dense) ⊎ (id ≡ profile_robust)
    → (wire : ℕ) × (profile_wire_id id ≡ ok wire)
      × (wire < 2)
      × (profile_id_from_wire_id wire ≡ ok id)
unfolding profile_wire_id profile_id_from_wire_id
wire-profile id (inl e) = (0, rw e refl, omega arith, rw e refl)
wire-profile id (inr e) = (1, rw e refl, omega arith, rw e refl)

abbrev values_of : BootstrapFields → ℕ → List ℕ
values_of f wire =
    f.magic % 65536
    ∷ packed_mode f
    ∷ wire % 4
    ∷ f.short_session_tag % 65536
    ∷ f.payload_len % 65536
    ∷ []

values-Fits : (f : BootstrapFields) (wire : ℕ) → Fits bootstrap_format (values_of f wire)
unfolding packed_mode
values-Fits f wire = (omega arith, (omega arith, (omega arith, (omega arith, (omega arith, tt)))))

bootstrap_of-values :
    (f : BootstrapFields) (wire : ℕ)
    → IsBootstrap f
    → bootstrap_of (values_of f wire) f.body_profile_id ≡ f
unfolding bootstrap_of packed_mode
bootstrap_of-values f wire i = ground (arith, i.magic, i.version)

check-eq : (f : BootstrapFields) → IsBootstrap f → check_bootstrap f ≡ ok f
unfolding check_bootstrap
check-eq f i =
    let m : (f.magic == layered_magic) ≡ true = rw i.magic refl in
    let v : (f.version == layered_version) ≡ true = rw i.version refl in
    let t : ltb f.frame_type 3 ≡ true = ground (arith, i.frame_type) in rw (m, v, t) refl

pack-eq :
    (f : BootstrapFields) (wire : ℕ) (raw crc : Payload)
    → profile_wire_id f.body_profile_id ≡ ok wire
    → struct_pack bootstrap_format (values_of f wire) ≡ ok raw
    → struct_pack (2 ∷ []) (crc32 raw % 65536 ∷ []) ≡ ok crc
    → pack_bootstrap f ≡ ok (raw ++ crc)
unfolding pack_bootstrap pack_without_crc
pack-eq f wire raw crc e g h = rw (e, g, h) refl

unpack-eq :
    (f : BootstrapFields) (wire : ℕ) (bytes raw : Payload)
    → ltb (length bytes) (struct_size bootstrap_format + 2) ≡ false
    → take (struct_size bootstrap_format) bytes ≡ raw
    → from_bytes (take 2 (drop (struct_size bootstrap_format) bytes)) ≡ crc32 raw % 65536
    → struct_unpack bootstrap_format raw ≡ values_of f wire
    → (wire % 4 / 4 == 0) ≡ true
    → wire % 4 % 4 ≡ wire
    → profile_id_from_wire_id wire ≡ ok f.body_profile_id
    → bootstrap_of (values_of f wire) f.body_profile_id ≡ f
    → check_bootstrap f ≡ ok f
    → unpack_bootstrap bytes ≡ ok f
unfolding unpack_bootstrap
unpack-eq f wire bytes raw long cut crc fields reserved small profile same good =
    rw (long, cut, crc, ==_refl (crc32 raw % 65536), fields, reserved, small, profile)
      (ap check_bootstrap same ∙ good)

long_enough : (bytes : Payload) → 10 ≤ length bytes → ltb (length bytes) 10 ≡ false
long_enough bytes h = ground arith

-- For bootstrap fields with the magic and the version of the protocol, one of the three frame
-- types, a known body profile, a mask below 8, and a session tag and a payload length below 65536,
-- pack returns bytes that unpack reads back as the same fields, whatever follows them.
pub unpack-pack_bootstrap :
    (f : BootstrapFields) (rest : Payload)
    → IsBootstrap f
    → (bytes : Payload) × (pack_bootstrap f ≡ ok bytes) × (unpack_bootstrap (bytes ++ rest) ≡ ok f)
unpack-pack_bootstrap f rest i =
    let (wire, e, lt, back) = wire-profile f.body_profile_id i.body_profile_id in
    let values = values_of f wire in
    let fits = values-Fits f wire in
    let raw = packed bootstrap_format values in
    let parity : List ℕ = crc32 raw % 65536 ∷ [] in
    let parity_fits : Fits (2 ∷ []) parity = (omega arith, tt) in
    let crc = packed (2 ∷ []) parity in
    let split : (raw ++ crc) ++ rest ≡ raw ++ (crc ++ rest) = append_assoc raw crc rest in
    let crc_unpacked : from_bytes (take 2 (crc ++ rest)) ≡ crc32 raw % 65536 =
      ap from_bytes (take-packed (2 ∷ []) parity rest parity_fits)
      ∙ (unfold packed in from-to_bytes 2 (crc32 raw % 65536) (omega arith)) in
    let long = long_enough (raw ++ (crc ++ rest)) (
      omega (
        arith,
        length-append {0} raw (crc ++ rest),
        length-packed bootstrap_format values fits,
        long-packed (2 ∷ []) parity rest parity_fits,
      )) in
    (
      raw ++ crc,
      pack-eq f wire raw crc e (struct_pack-packed bootstrap_format values fits)
          (struct_pack-packed (2 ∷ []) parity parity_fits),
      subst (λ b. unpack_bootstrap b ≡ ok f) (sym split)
          (unpack-eq f wire (raw ++ (crc ++ rest)) raw long
            (take-packed bootstrap_format values (crc ++ rest) fits)
            (ap (λ b. from_bytes (take 2 b))
                (drop-packed bootstrap_format values (crc ++ rest) fits)
              ∙ crc_unpacked)
            (struct_unpack_exact bootstrap_format values fits) (ground (arith, lt))
            (omega (arith, lt)) back (bootstrap_of-values f wire i) (check-eq f i)),
    )
