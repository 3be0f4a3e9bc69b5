-- ===== src/Server/SystemHeaders/Agreement.antt =====
-- The memory of internal/server/system-headers.go against the disk it is filled from.
use nocc.Common.Sha256.{Sha256}
use nocc.Prelude.Dict.{get, get-put}
use nocc.Prelude.{
  ℕ, Option, some, Bytes, ◌≡◌, refl, arith, Option-cases, inl, inr, bytes_beq_iff, bytes_comparable,
}
use nocc.Server.SystemHeaders.{
  SystemHeader, SystemHeadersCache, Disk, is_system_header, header_on_disk, is_same_header,
}

-- What is remembered is what the disk has.
pub record Agrees (disk : Disk) (c : SystemHeadersCache) : Type 0 where
  pub known :
      (path : Bytes) (h : Option SystemHeader)
      → get path c.headers ≡ some h
      → h ≡ header_on_disk disk path

-- On a disk whose headers do not change, IsSystemHeader answers whether the disk has a readable file
-- at the path with this size and this hash, also from its memory, and what it remembers stays true.
pub is_system_header-Agrees :
    (disk : Disk) (c : SystemHeadersCache) (path : Bytes) (size : ℕ) (hash : Sha256)
    → Agrees disk c
    → ((is_system_header disk c path size hash).1
        ≡ is_same_header (header_on_disk disk path) size hash)
      × Agrees disk (is_system_header disk c path size hash).0
unfolding is_system_header
is_system_header-Agrees disk c path size hash a = elim (Option-cases (get path c.headers)) [
  | inr (h, found) ↦ rw (found, is_system_header) (let e = a.known path h found in (rw e refl, a))
  | inl new ↦
      rw (new, is_system_header)
        (
          refl,
          record {
            known = λ p h e. ground (
              arith,
              get-put path p (header_on_disk disk path) c.headers,
              bytes_beq_iff path p,
              a.known p h,
            );
          },
        )
]
