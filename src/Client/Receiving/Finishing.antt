-- ===== src/Client/Receiving/Finishing.antt =====
-- How internal/client/files-receiving.go ends the wait of an invocation for its object.
use nocc.Client.Receiving.Placing.{IsCut, IsWhole, receive_obj-IsWhole}
use nocc.Client.Receiving.{
  Disk, ReceiveError, killed_on_remote, no_gcno, Placed, check_gcno, receive_obj_file_by_chunks,
  Handled, handle_first_chunk,
}
use nocc.Common.CompilerKilled.{compiler_was_killed}
use nocc.Prelude.{
  ◌<◌, ◌≤◌, Bool, true, false, ◌&&◌, none, some, List, Bytes, ◌≡◌, refl, arith, Bool-cases,
  Option-cases, inl, inr, ◌⊎◌, length, nat_beq,
}
use nocc.Server.Handlers.Replies.{is_zero}
use nocc.Server.Sending.{ObjChunk}

-- An object without an error, and its .gcno where the compilation is for coverage.
pub record IsComplete (coverage_notes : Bool) (first : ObjChunk) (p : Placed) : Type 0 where
  pub obj : (b : Bytes) × (p.obj ≡ some b) × (first.file_size ≤ length b)
  pub gcno :
      coverage_notes ≡ true
      → (n : Bytes) × (p.notes ≡ some n)
        × (0 < first.notes_file_size)
        × (first.notes_file_size ≤ length n)

-- What an error may leave of an object: what a failed write has written of it, or all of it, without its
-- .gcno, where it cannot be removed.
abbrev pub Remains : Disk → Bool → ObjChunk → ReceiveError → Placed → Type 0
Remains disk coverage_notes first e p =
    IsCut disk first p
    ⊎ ((e ≡ no_gcno)
        × (disk.removes ≡ false)
        × (coverage_notes ≡ true)
        × (first.notes_file_size ≡ 0))

-- The wait ends in one of four ways.
pub data Finished (disk : Disk) (coverage_notes : Bool) (first : ObjChunk) (h : Handled)
    : Type 0 where
  killed :
      compiler_was_killed first.cxx_exit_code first.cxx_stderr ≡ true
      → h.done ≡ some (some killed_on_remote)
      → h.placed.obj ≡ none
      → Finished disk coverage_notes first h
  compile_error :
      is_zero first.cxx_exit_code ≡ false
      → h.done ≡ some none
      → h.shown ≡ some first.cxx_exit_code
      → h.placed.obj ≡ none
      → Finished disk coverage_notes first h
  complete :
      is_zero first.cxx_exit_code ≡ true
      → h.done ≡ some none
      → h.shown ≡ some first.cxx_exit_code
      → IsComplete coverage_notes first h.placed
      → Finished disk coverage_notes first h
  errored :
      (e : ReceiveError)
      → h.done ≡ some (some e)
      → (h.placed.obj ≡ none) ⊎ Remains disk coverage_notes first e h.placed
      → Finished disk coverage_notes first h

check_gcno-IsComplete :
    (disk : Disk) (coverage_notes : Bool) (first : ObjChunk) (p : Placed)
    → IsWhole disk coverage_notes first p
    → (((check_gcno disk coverage_notes first p).error ≡ none)
        × IsComplete coverage_notes first (check_gcno disk coverage_notes first p))
      ⊎ ((e : ReceiveError) × ((check_gcno disk coverage_notes first p).error ≡ some e)
          × (((check_gcno disk coverage_notes first p).obj ≡ none)
              ⊎ Remains disk coverage_notes first e (check_gcno disk coverage_notes first p)))
check_gcno-IsComplete disk coverage_notes first p w = elim (Option-cases p.error) [
  | inr (e, bad) ↦ rw bad (
      inr (e, refl, elim (w.errored e bad) [ inl gone ↦ inl gone | inr is_cut ↦ inr (inl is_cut) ]))
  | inl good ↦ elim (Bool-cases (coverage_notes && nat_beq first.notes_file_size 0)) [
    | inl missing ↦
        rw (good, missing)
          (inr (
            no_gcno,
            refl,
            elim (Bool-cases disk.removes) [
              | inl gone ↦ inl (rw gone refl)
              | inr stays ↦
                  inr (inr (refl, stays, ground (arith, missing), ground (arith, missing)))
            ],
          ))
    | inr there ↦
        rw (good, there)
          (inl (
            refl,
            record {
              obj = w.obj_whole good;
              gcno = λ c.
                  let q : 0 < first.notes_file_size = ground (arith, there, c) in
                  let (n, m, l) = w.notes_whole good c q in (n, m, q, l);
            },
          ))
  ]
]

-- With the first chunk of an object the wait of its invocation ends, whatever the stream and the disk
-- do: with an error and no object if the compiler was killed there, with the exit code and no object if
-- the source does not compile, without an error only with a whole object, and for a coverage
-- compilation with a whole .gcno beside it, and else with an error. Then there is no object, but for
-- what a failed write leaves of one that came in one chunk with no .gcno, and for one that came without
-- the .gcno of its coverage compilation and cannot be removed.
pub handle_first_chunk-Finished :
    (disk : Disk) (coverage_notes : Bool) (first : ObjChunk) (stream : List ObjChunk)
    → Finished disk coverage_notes first
        (handle_first_chunk disk (some coverage_notes) first stream)
unfolding handle_first_chunk
handle_first_chunk-Finished disk coverage_notes first stream =
    elim (Bool-cases (compiler_was_killed first.cxx_exit_code first.cxx_stderr)) [
      | inl k ↦ killed k (ground (arith, k)) (ground (arith, k))
      | inr n ↦ elim (Bool-cases (is_zero first.cxx_exit_code)) [
        | inr z ↦
            compile_error z (ground (arith, n, z)) (ground (arith, n, z)) (ground (arith, n, z))
        | inl z ↦
            elim (check_gcno-IsComplete disk coverage_notes first
              (receive_obj_file_by_chunks disk coverage_notes first stream)
              (receive_obj-IsWhole disk coverage_notes first stream)) [
                | inl good ↦
                    complete z (ground (arith, n, z, good.0)) (ground (arith, n, z))
                      (rw (n, z) good.1)
                | inr bad ↦ errored bad.0 (ground (arith, n, z, bad.1)) (rw (n, z) bad.2)
              ]
      ]
    ]
