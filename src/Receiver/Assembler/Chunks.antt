-- ===== src/Receiver/Assembler/Chunks.antt =====
-- The chunks that a unit adds to the assembler: a list of chunks, stored one after the other.
use screen_airdrop.Prelude.{
  ℕ, ◌+◌, ◌≡◌, refl, subst, ap, ◌∙◌, Bool, true, false, [], ◌∷◌, ◌==◌, if◌then◌else◌, arith, inl,
  inr, Bool-cases,
}
use screen_airdrop.Prelude.Dict.{Dict, has, put}
use screen_airdrop.Prelude.Result.{Result, ok, bound_value}
use screen_airdrop.Coding.Payload.{Payload}
use screen_airdrop.Coding.Equation.{Random}
use screen_airdrop.Units.{CodedUnit, TransmissionUnit, systematic, coded}
use screen_airdrop.Receiver.Decoder.{IngestResult, ingest}
use screen_airdrop.Receiver.Assembler.{
  ChunkAssembler, global_chunk_id, default_generation_size, generation_accepts_coded, is_duplicate,
  resolve_unit,
}
use screen_airdrop.Receiver.Assembler.Arrive.{
  store_chunk, materialize, note_invalid_coded_payload, finish_coded, finish_recovered,
  add_coded_unit, add_resolved, add_unit,
}

pub has-put :
    (d : Dict Payload) (k j : ℕ) (v : Payload)
    → has (put d k v) j ≡ (if k == j then true else has d j)
has-put [] k j v = refl
has-put ((i, w) ∷ d) k j v = ground (arith, has-put d k j v)

-- Chunks and their count: a chunk is stored and counted unless one with its id is there.
abbrev pub store_one : Dict Payload × ℕ → ℕ → Payload → Dict Payload × ℕ
store_one c id payload = if has c.0 id then c else (put c.0 id payload, c.1 + 1)

abbrev pub stores : Dict Payload × ℕ → Dict Payload → Dict Payload × ℕ
stores c [] = c
stores c ((id, payload) ∷ more) = stores (store_one c id payload) more

module _ {J : Type 0} where
  abbrev pub counted_chunks : ChunkAssembler J → Dict Payload × ℕ
  counted_chunks a = (a.chunks, a.received_count)

  -- The chunks and the count of `b` are those of `a` after some chunks are stored.
  abbrev pub Stored : ChunkAssembler J → ChunkAssembler J → Type 0
  Stored a b = (added : Dict Payload) × (counted_chunks b ≡ stores (counted_chunks a) added)

  store_chunk-one :
      (a : ChunkAssembler J) (id : ℕ) (p : Payload)
      → counted_chunks (store_chunk a id p) ≡ store_one (counted_chunks a) id p
  unfolding store_chunk
  store_chunk-one a id p = elim (Bool-cases (has a.chunks id)) [
    | inl e ↦ rw e refl
    | inr e ↦ rw e refl
  ]

  materialize-Stored :
      (a : ChunkAssembler J) (generation_id : ℕ) (symbols : Dict Payload)
      → Stored a (materialize a generation_id symbols)
  unfolding materialize
  materialize-Stored a generation_id [] = ([], refl)
  materialize-Stored a generation_id ((i, p) ∷ symbols) =
      let id = global_chunk_id a generation_id i in
      let (added, e) = materialize-Stored (store_chunk a id p) generation_id symbols in
      ((id, p) ∷ added, e ∙ ap (λ c. stores c added) (store_chunk-one a id p))

  recovered-Stored :
      (a : ChunkAssembler J) (generation_id : ℕ) (symbols : Dict Payload)
      → Stored a (finish_recovered a generation_id symbols).0
  unfolding finish_recovered
  recovered-Stored a generation_id [] = ([], refl)
  recovered-Stored a generation_id (symbol ∷ more) =
      materialize-Stored a generation_id (symbol ∷ more)

  finish_coded-Stored :
      (a : ChunkAssembler J) (generation_id : ℕ) (r : IngestResult)
      → Stored a (finish_coded a generation_id r).0
  unfolding finish_coded
  finish_coded-Stored a generation_id r = elim (Bool-cases (is_duplicate r.status)) [
    | inl e ↦ rw e ([], refl)
    | inr e ↦ rw e (recovered-Stored a generation_id r.recovered_source_symbols)
  ]

  as-Stored :
      (a b : ChunkAssembler J) (new : Bool) (r : ChunkAssembler J × Bool)
      → Result.ok r ≡ ok (b, new)
      → Stored a r.0
      → Stored a b
  as-Stored a b new r e s = let q : r ≡ (b, new) = cc e in subst (λ x. Stored a x.0) q s

  add_coded_unit-Stored :
      (random : Random) (a b : ChunkAssembler J) (u : CodedUnit) (accepts new : Bool)
      → add_coded_unit random a u accepts ≡ ok (b, new)
      → Stored a b
  unfolding add_coded_unit note_invalid_coded_payload
  add_coded_unit-Stored random a b u false new e =
      as-Stored a b new (note_invalid_coded_payload a, false) e ([], refl)
  add_coded_unit-Stored random a b u true new e =
      let (r, _, q) =
        bound_value (ingest random a.generation_store (coded u) (default_generation_size a)) _
          (b, new) e in
      as-Stored a b new _ q
        (finish_coded-Stored (record a { generation_store = r.0 }) u.generation_id r.1)

  add_resolved-Stored :
      (random : Random) (a b : ChunkAssembler J) (unit : TransmissionUnit) (new : Bool)
      → add_resolved random a unit ≡ ok (b, new)
      → Stored a b
  unfolding add_resolved
  add_resolved-Stored random a b (systematic u) new e =
      let (r, _, q) =
        bound_value (ingest random a.generation_store (systematic u) (default_generation_size a)) _
          (b, new) e in
      let id = global_chunk_id a u.generation_id u.source_index in
      as-Stored a b new _ q
        ((id, u.payload) ∷ [], store_chunk-one (record a { generation_store = r.0 }) id u.payload)
  add_resolved-Stored random a b (coded u) new e =
      add_coded_unit-Stored random a b u (generation_accepts_coded a u.generation_id) new e

  -- add_unit, when it raises nothing, stores some chunks one after the other, and counts each new one.
  pub add_unit-Stored :
      (random : Random) (a b : ChunkAssembler J) (unit : TransmissionUnit) (new : Bool)
      → add_unit random a unit ≡ ok (b, new)
      → Stored a b
  unfolding add_unit
  add_unit-Stored random a b unit new e = add_resolved-Stored random a b (resolve_unit a unit) new e
