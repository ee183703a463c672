-- ===== src/Receiver/Assembler/Session.antt =====
-- The sender's payload, cut into chunks, and what a complete receiver gives.
use screen_airdrop.Prelude.{
  ℕ, zero, suc, ◌+◌, ◌<◌, ◌≡◌, refl, sym, ap, ap₂, ◌∙◌, true, none, some, List, [], ◌∷◌, ◌++◌, ltb,
  length, get_elem?, arith,
}
use screen_airdrop.Prelude.Dict.{Dict, get}
use screen_airdrop.Prelude.Slices.{slices, concat, concat-slices}
use screen_airdrop.Prelude.Result.{Result, ok}
use screen_airdrop.Coding.Payload.{Payload}
use screen_airdrop.Coding.Equation.{Random}
use screen_airdrop.Sender.Packing.{chunk_bytes}
use screen_airdrop.Receiver.Assembler.{Manifest, ControlCodec, ChunkAssembler}
use screen_airdrop.Receiver.Assembler.Control.{complete, payload}
use screen_airdrop.Receiver.Assembler.Assembled.{joined, has-get}
use screen_airdrop.Receiver.Assembler.Runs.{Run, complete-present, complete-payload}

-- The chunks of the payload are those of the sender.
joined-concat :
    (d : Dict Payload) (chunks : List Payload) (cid : ℕ)
    → ((k : ℕ) → k < length chunks → get d (cid + k) ≡ get_elem? chunks k)
    → joined d cid (length chunks) ≡ concat chunks
joined-concat d [] cid same = refl
joined-concat d (c ∷ chunks) cid same =
    let first : get d cid ≡ some c = ap (get d) (omega arith) ∙ same 0 (omega arith) in
    ap₂ (λ o rest. elim o [ none ↦ [] | some chunk ↦ chunk ] ++ rest) first
      (joined-concat d chunks (cid + 1)
        (λ k h. ap (get d) (omega arith) ∙ same (suc k) (omega (arith, h))))

same_value : {xs ys : List Payload} → Result.ok xs ≡ ok ys → xs ≡ ys
same_value e = cc

chunk_bytes-concat :
    (data_bytes : Payload) (chunk_size : ℕ) (chunks : List Payload)
    → chunk_bytes data_bytes chunk_size ≡ ok chunks
    → concat chunks ≡ data_bytes
unfolding chunk_bytes
chunk_bytes-concat data_bytes zero chunks e = absurd (cc e)
chunk_bytes-concat data_bytes (suc n) chunks e =
    let some_size : ltb 0 (suc n) ≡ true = ground arith in
    let cut : chunk_bytes data_bytes (suc n) ≡ ok (slices (suc n) data_bytes) = rw some_size refl in
    let at : slices (suc n) data_bytes ≡ chunks = same_value (sym cut ∙ e) in
    ap concat (sym at) ∙ concat-slices (suc n) data_bytes (omega arith)

-- Each chunk of the sender's that is there is the sender's.
abbrev pub Truthful : Dict Payload → List Payload → Type 0
Truthful d chunks =
    (k : ℕ) (p : Payload) → k < length chunks → get d (suc k) ≡ some p → get_elem? chunks k ≡ some p

module _ {J : Type 0} (codec : ControlCodec J) (random : Random) where
  -- Where chunk_bytes cuts a payload into chunks, a receiver, after calls of add, add_control and
  -- add_unit that raise nothing and whose new data chunks have ids from 1 to the number of chunks,
  -- with a manifest of that number of chunks, of which complete is true and whose chunks with
  -- these ids are the sender's, returns exactly the payload.
  pub chunk_bytes-payload :
      (data_bytes : Payload) (chunk_size : ℕ) (chunks : List Payload) (a : ChunkAssembler J)
      (m : Manifest)
      → chunk_bytes data_bytes chunk_size ≡ ok chunks
      → Run codec random (length chunks) a
      → a.manifest ≡ some m
      → m.total_chunks ≡ length chunks
      → complete a ≡ true
      → Truthful a.chunks chunks
      → payload a ≡ ok data_bytes
  chunk_bytes-payload data_bytes chunk_size chunks a m cut run e total c truth =
      let there = complete-present codec random (length chunks) a m run e total c in
      complete-payload codec random (length chunks) a m run e total c
      ∙ ap Result.ok (
          joined-concat a.chunks chunks 1 (λ k h.
            let (p, q) =
              has-get a.chunks (suc k) (there (suc k) (omega arith) (omega (arith, h))) in
            ap (get a.chunks) (omega arith) ∙ q ∙ sym (truth k p h q))
          ∙ chunk_bytes-concat data_bytes chunk_size chunks cut)
