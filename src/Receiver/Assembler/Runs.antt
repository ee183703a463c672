-- ===== src/Receiver/Assembler/Runs.antt =====
-- The calls of an assembler, and what a complete one has received.
use screen_airdrop.Prelude.{
  ℕ, ◌≤◌, ◌≡◌, sym, subst, ap, ◌∙◌, Bool, true, false, none, some, [], arith,
}
use screen_airdrop.Prelude.Dict.{has, put}
use screen_airdrop.Prelude.Result.{ok, bound_value}
use screen_airdrop.Coding.Payload.{Payload}
use screen_airdrop.Coding.Equation.{Random}
use screen_airdrop.Units.{TransmissionUnit}
use screen_airdrop.Receiver.Assembler.{
  ControlKind, Manifest, ControlCodec, ChunkAssembler, new_assembler,
  control_kind_from_wire_chunk_id,
}
use screen_airdrop.Receiver.Assembler.Arrive.{add_unit}
use screen_airdrop.Receiver.Assembler.Control.{
  add_control, chunk_unit, add_bootstrap, add_as, add, complete_of, complete, join_chunks,
  payload_of, payload,
}
use screen_airdrop.Receiver.Assembler.Chunks.{counted_chunks, stores, Stored, add_unit-Stored}
use screen_airdrop.Receiver.Assembler.Counted.{
  present, NewWithin, present-put_le, present-full, stores-present,
}
use screen_airdrop.Receiver.Assembler.Assembled.{joined, join_chunks-joined}
use screen_airdrop.Receiver.Assembler.Same.{same_first, SameChunks, add_control-Same}

module _ {J : Type 0} where
  abbrev pub IsCounted : ℕ → ChunkAssembler J → Type 0
  IsCounted n a = a.received_count ≤ present n a.chunks

  Stored-IsCounted :
      (n : ℕ) (a b : ChunkAssembler J)
      → Stored a b
      → NewWithin n a.chunks b.chunks
      → IsCounted n a
      → IsCounted n b
  Stored-IsCounted n a b (added, e) new h =
      let ec : b.chunks ≡ (stores (counted_chunks a) added).0 = ap (λ c. c.0) e in
      let en : b.received_count ≡ (stores (counted_chunks a) added).1 = ap (λ c. c.1) e in
      let there =
        stores-present n (counted_chunks a) added (subst (NewWithin n a.chunks) ec new) h in
      subst (λ d. b.received_count ≤ present n d) (sym ec) (omega (arith, en, there))

  module _ (codec : ControlCodec J) where
    same-IsCounted :
        (n : ℕ) (a b : ChunkAssembler J) → SameChunks a b → IsCounted n a → IsCounted n b
    same-IsCounted n a b s h = subst (λ c. c.1 ≤ present n c.0) (sym s) h

    bootstrap-IsCounted :
        (n : ℕ) (a b : ChunkAssembler J) (id : ℕ) (kind : ControlKind) (p : Payload)
        (there new : Bool)
        → add_bootstrap codec a id kind p there ≡ ok (b, new)
        → IsCounted n a
        → IsCounted n b
    unfolding add_bootstrap
    bootstrap-IsCounted n a b id kind p true new e h =
        let q : a ≡ b = same_first (a, false) (b, new) e in subst (IsCounted n) q h
    bootstrap-IsCounted n a b id kind p false new e h =
        let after = record a { chunks = put a.chunks id p } in
        let (c, read, q) = bound_value (add_control codec after kind p) _ (b, new) e in
        let at : c ≡ b = same_first (c, true) (b, new) q in
        let counted : IsCounted n after = omega (arith, h, present-put_le n a.chunks id p) in
        subst (IsCounted n) at
          (same-IsCounted n after c (add_control-Same codec after c kind p read) counted)

    module _ (random : Random) (n : ℕ) where
      -- One call that raises nothing. A unit's chunks, and the chunk of an id that is no control
      -- item's, are among 1 to n.
      pub data Step : ChunkAssembler J → ChunkAssembler J → Type 0 where
        unit_added :
            (a b : ChunkAssembler J) (unit : TransmissionUnit) (new : Bool)
            → add_unit random a unit ≡ ok (b, new)
            → NewWithin n a.chunks b.chunks
            → Step a b
        chunk_added :
            (a b : ChunkAssembler J) (id : ℕ) (p : Payload) (new : Bool)
            → control_kind_from_wire_chunk_id id ≡ none
            → add codec random a id p ≡ ok (b, new)
            → NewWithin n a.chunks b.chunks
            → Step a b
        bootstrap_added :
            (a b : ChunkAssembler J) (id : ℕ) (kind : ControlKind) (p : Payload) (new : Bool)
            → control_kind_from_wire_chunk_id id ≡ some kind
            → add codec random a id p ≡ ok (b, new)
            → Step a b
        control_added :
            (a b : ChunkAssembler J) (kind : ControlKind) (p : Payload)
            → add_control codec a kind p ≡ ok b
            → Step a b

      pub data Run : ChunkAssembler J → Type 0 where
        begun : Run new_assembler
        then_step : {a b : ChunkAssembler J} → Run a → Step a b → Run b

      Step-IsCounted : (a b : ChunkAssembler J) → Step a b → IsCounted n a → IsCounted n b
      unfolding add add_as
      Step-IsCounted _ _ (unit_added a b unit new e within) h =
          Stored-IsCounted n a b (add_unit-Stored random a b unit new e) within h
      Step-IsCounted _ _ (chunk_added a b id p new kind e within) h =
          Stored-IsCounted n a b
            (add_unit-Stored random a b (chunk_unit a id p) new
              (sym (ap (add_as codec random a id p) kind) ∙ e))
            within h
      Step-IsCounted _ _ (bootstrap_added a b id kind p new at e) h =
          bootstrap-IsCounted n a b id kind p (has a.chunks id) new
            (sym (ap (add_as codec random a id p) at) ∙ e) h
      Step-IsCounted _ _ (control_added a b kind p e) h =
          same-IsCounted n a b (add_control-Same codec a b kind p e) h

      pub Run-IsCounted : (a : ChunkAssembler J) → Run a → IsCounted n a
      Run-IsCounted _ begun = omega arith
      Run-IsCounted last (then_step {a = before} run step) =
          Step-IsCounted before last step (Run-IsCounted before run)

      complete-counted :
          (a : ChunkAssembler J) (m : Manifest)
          → a.manifest ≡ some m
          → complete a ≡ true
          → m.total_chunks ≤ a.received_count
      unfolding complete complete_of
      complete-counted a m e c =
          let all = sym (ap (λ o. complete_of o a.received_count) e) ∙ c in ground (arith, all)

      pub complete-present :
          (a : ChunkAssembler J) (m : Manifest)
          → Run a
          → a.manifest ≡ some m
          → m.total_chunks ≡ n
          → complete a ≡ true
          → (k : ℕ) → 1 ≤ k
          → k ≤ n
          → has a.chunks k ≡ true
      complete-present a m run e total c k lo hi =
          let counted = Run-IsCounted a run in
          let full : n ≤ present n a.chunks =
            omega (arith, counted, complete-counted a m e c, total) in
          present-full n a.chunks full k lo hi

      -- After calls of add, add_control and add_unit that raise nothing and whose new data chunks
      -- have ids from 1 to n, with a manifest of n chunks, if complete is true then payload raises
      -- nothing, and returns the chunks 1 to n one after the other.
      pub complete-payload :
          (a : ChunkAssembler J) (m : Manifest)
          → Run a
          → a.manifest ≡ some m
          → m.total_chunks ≡ n
          → complete a ≡ true
          → payload a ≡ ok (joined a.chunks 1 n)
      unfolding payload payload_of
      complete-payload a m run e total c =
          ap (λ o. payload_of o a.chunks) e
          ∙ ap (λ k. join_chunks a.chunks 1 k []) total
          ∙ join_chunks-joined a.chunks 1 n []
              (λ k lo hi. complete-present a m run e total c k lo (omega (arith, hi)))
