-- ===== src/Receiver/Assembler/Same.antt =====
-- Control items change neither the chunks of an assembler nor their count.
use screen_airdrop.Prelude.{
  ℕ, ◌≡◌, refl, subst, ap, ◌∙◌, Bool, Option, none, some, [], ◌∷◌, inl, inr, Bool-cases,
  Option-cases,
}
use screen_airdrop.Prelude.Dict.{Dict, has}
use screen_airdrop.Prelude.Result.{Result, ok, bound_value}
use screen_airdrop.Coding.Payload.{Payload}
use screen_airdrop.Receiver.Assembler.{
  ControlKind, manifest_kind, session_kind, layout_kind, generation_kind, other_kind, kind_key,
  Manifest, GenerationInfo, SessionInfo, ControlCodec, ChunkAssembler,
}
use screen_airdrop.Receiver.Assembler.Control.{
  size_first, set_manifest, set_generation, keep_item, first_manifest, first_session, first_layout,
  read_control, add_control,
}
use screen_airdrop.Receiver.Assembler.Chunks.{counted_chunks}

module _ {J : Type 0} where
  pub same_first : (r q : ChunkAssembler J × Bool) → Result.ok r ≡ ok q → r.0 ≡ q.0
  same_first r q e = let at : r ≡ q = cc e in ap (λ x. x.0) at

  -- Reading a control item changes neither the chunks nor their count.
  abbrev pub SameChunks : ChunkAssembler J → ChunkAssembler J → Type 0
  SameChunks a b = counted_chunks b ≡ counted_chunks a

  size_first-Same :
      (a : ChunkAssembler J) (g : Dict GenerationInfo) (n : ℕ) → SameChunks a (size_first a g n)
  unfolding size_first
  size_first-Same a [] n = refl
  size_first-Same a (item ∷ items) n = refl

  set_manifest-Same : (a : ChunkAssembler J) (m : Manifest) → SameChunks a (set_manifest a m)
  unfolding set_manifest
  set_manifest-Same a m =
      size_first-Same (record a { manifest = some m }) a.generations m.total_chunks

  set_generation-Same :
      (a : ChunkAssembler J) (info : GenerationInfo) → SameChunks a (set_generation a info)
  unfolding set_generation
  set_generation-Same a info = elim (Option-cases info.generation_id) [
    | inl e ↦ rw e refl
    | inr (id, e) ↦ rw e refl
  ]

  keep_item-Same :
      (a : ChunkAssembler J) (kind : ControlKind) (p : Payload) → SameChunks a (keep_item a kind p)
  unfolding keep_item
  keep_item-Same a kind p = elim (Bool-cases (has a.control_items (kind_key kind))) [
    | inl e ↦ rw e refl
    | inr e ↦ rw e refl
  ]

  module _ (codec : ControlCodec J) where
    as-Same : (a b c : ChunkAssembler J) → Result.ok c ≡ ok b → SameChunks a c → SameChunks a b
    as-Same a b c e s = let q : c ≡ b = cc e in subst (SameChunks a) q s

    first_manifest-Same :
        (a b : ChunkAssembler J) (m : Option Manifest) (p : Payload)
        → first_manifest codec a m p ≡ ok b
        → SameChunks a b
    unfolding first_manifest
    first_manifest-Same a b (some m) p e = as-Same a b a e refl
    first_manifest-Same a b none p e =
        let (m, _, q) = bound_value (codec.manifest_from_json_bytes p) _ b e in
        as-Same a b _ q (set_manifest-Same a m)

    first_session-Same :
        (a b : ChunkAssembler J) (s : Option SessionInfo) (p : Payload)
        → first_session codec a s p ≡ ok b
        → SameChunks a b
    unfolding first_session
    first_session-Same a b (some s) p e = as-Same a b a e refl
    first_session-Same a b none p e =
        let (s, _, q) = bound_value (codec.decode_session_bootstrap p) _ b e in as-Same a b _ q refl

    first_layout-Same :
        (a b : ChunkAssembler J) (l : Option J) (p : Payload)
        → first_layout codec a l p ≡ ok b
        → SameChunks a b
    unfolding first_layout
    first_layout-Same a b (some l) p e = as-Same a b a e refl
    first_layout-Same a b none p e =
        let (l, _, q) = bound_value (codec.decode_layout_bootstrap p) _ b e in as-Same a b _ q refl

    read_control-Same :
        (a b : ChunkAssembler J) (kind : ControlKind) (p : Payload)
        → read_control codec a kind p ≡ ok b
        → SameChunks a b
    unfolding read_control
    read_control-Same a b manifest_kind p e = first_manifest-Same a b a.manifest p e
    read_control-Same a b generation_kind p e =
        let (info, _, q) = bound_value (codec.decode_generation_control p) _ b e in
        as-Same a b _ q (set_generation-Same a info)
    read_control-Same a b session_kind p e = first_session-Same a b a.session_info p e
    read_control-Same a b layout_kind p e = first_layout-Same a b a.layout_info p e
    read_control-Same a b (other_kind n) p e = as-Same a b a e refl

    pub add_control-Same :
        (a b : ChunkAssembler J) (kind : ControlKind) (p : Payload)
        → add_control codec a kind p ≡ ok b
        → SameChunks a b
    unfolding add_control
    add_control-Same a b kind p e =
        read_control-Same (keep_item a kind p) b kind p e ∙ keep_item-Same a kind p
