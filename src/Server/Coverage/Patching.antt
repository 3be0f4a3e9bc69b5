-- ===== src/Server/Coverage/Patching.antt =====
-- What internal/server/coverage.go makes of a .gcno: `patchGcnoCwd`.
use nocc.Prelude.Maybe.{returns}
use nocc.Prelude.Text.{has_prefix, has_prefix_split, drop-append}
use nocc.Prelude.{
  ℕ, zero, suc, ◌+◌, ◌≤◌, true, some, List, [], ◌∷◌, ◌++◌, Bytes, ◌≡◌, inl, inr, refl, sym, ap, ◌∙◌,
  subst, arith, leb, ltb, length, take, drop, IsIn, Bool-cases, Option-cases,
}
use nocc.Server.Coverage.{
  ByteOrder, Layout, string_record, fits_layout, all_layouts, found_layouts, gcno_order, patch_at,
  only_one, patch_gcno_cwd,
}

take-drop : (n : ℕ) (s : Bytes) → take n s ++ drop n s ≡ s
take-drop zero s = refl
take-drop (suc n) [] = refl
take-drop (suc n) (x ∷ s) = ap (λ t. x ∷ t) (take-drop n s)

length-take : (n : ℕ) (s : Bytes) → n ≤ length s → length (take n s) ≡ n
length-take zero s h = refl
length-take (suc n) [] h = absurd (omega (arith, h))
length-take (suc n) (x ∷ s) h = ap suc (length-take n s (omega (arith, h)))

drop_nil : (k : ℕ) → ◌≡◌ {A = Bytes} (drop k []) []
drop_nil zero = refl
drop_nil (suc k) = refl

drop_add : (n k : ℕ) (s : Bytes) → drop (n + k) s ≡ drop k (drop n s)
drop_add zero k s = ap (λ j. drop j s) (let e : 0 + k ≡ k = omega arith in e)
drop_add (suc n) k [] = drop_nil (suc n + k) ∙ sym (drop_nil k)
drop_add (suc n) k (x ∷ s) =
    ap (λ j. drop j (x ∷ s)) (let e : suc n + k ≡ suc (n + k) = omega arith in e) ∙ drop_add n k s

module _ (order : ByteOrder) (gcno cwd : Bytes) where
  found-IsIn :
      (k : Layout) (ls : List Layout)
      → IsIn k ls
      → fits_layout order gcno cwd k ≡ true
      → IsIn k (found_layouts order gcno cwd ls)
  unfolding found_layouts
  found-IsIn k [] i f = absurd i
  found-IsIn k (l ∷ ls) (inl e) f =
      rw (subst (λ j. fits_layout order gcno cwd j ≡ true) (sym e) f) (inl e)
  found-IsIn k (l ∷ ls) (inr i) f = elim (Bool-cases (fits_layout order gcno cwd l)) [
    | inl good ↦ rw good (inr (found-IsIn k ls i f))
    | inr bad ↦ rw bad (found-IsIn k ls i f)
  ]

  IsIn-found :
      (k : Layout) (ls : List Layout)
      → IsIn k (found_layouts order gcno cwd ls)
      → IsIn k ls × (fits_layout order gcno cwd k ≡ true)
  unfolding found_layouts
  IsIn-found k [] i = absurd i
  IsIn-found k (l ∷ ls) i = elim (Bool-cases (fits_layout order gcno cwd l)) [
    | inl good ↦ elim (rw (good, found_layouts) at i) [
      | inl e ↦ (inl e, subst (λ j. fits_layout order gcno cwd j ≡ true) e good)
      | inr later ↦ let (j, f) = IsIn-found k ls later in (inr j, f)
    ]
    | inr bad ↦ let (j, f) = IsIn-found k ls (rw (bad, found_layouts) at i) in (inr j, f)
  ]

-- A .gcno with the server's directory in one layout, and the same with the client's.
pub record Patched (gcno server_cwd client_cwd out : Bytes) : Type 0 where
  pub order : ByteOrder
  pub place : Layout
  pub header : Bytes
  pub rest : Bytes
  pub known : gcno_order gcno ≡ some order
  pub tried : IsIn place all_layouts
  pub before : length header ≡ place.offset
  pub whole : gcno ≡ header ++ (string_record order place server_cwd ++ rest)
  pub replaced : out ≡ header ++ (string_record order place client_cwd ++ rest)
  pub only :
      (k : Layout) → IsIn k all_layouts → fits_layout order gcno server_cwd k ≡ true → k ≡ place

only_one-cases : (ls : List Layout) {l : Layout} → only_one ls ≡ some l → ls ≡ l ∷ []
only_one-cases [] e = cc e
only_one-cases (k ∷ []) {l} e = returns (λ j. (k ∷ []) ≡ j ∷ []) e refl
only_one-cases (k ∷ j ∷ ls) e = cc e

module _ (order : ByteOrder) (gcno server_cwd client_cwd : Bytes) (l : Layout) where
  -- The parts of a .gcno that a layout fits.
  fits-parts :
      fits_layout order gcno server_cwd l ≡ true
      → (r : Bytes) × (gcno ≡ take l.offset gcno ++ (string_record order l server_cwd ++ r))
        × (length (take l.offset gcno) ≡ l.offset)
        × (patch_at order gcno server_cwd client_cwd l
            ≡ take l.offset gcno ++ (string_record order l client_cwd ++ r))
  unfolding fits_layout patch_at
  fits-parts f =
      let inside : leb l.offset (length gcno) ≡ true = ground arith in
      let starts : has_prefix (drop l.offset gcno) (string_record order l server_cwd) ≡ true =
        ground arith in
      let (r, split) =
        has_prefix_split (drop l.offset gcno) (string_record order l server_cwd) starts in
      let tail : drop (l.offset + length (string_record order l server_cwd)) gcno ≡ r =
        drop_add l.offset (length (string_record order l server_cwd)) gcno
        ∙ (ap (λ t. drop (length (string_record order l server_cwd)) t) split
            ∙ drop-append (string_record order l server_cwd) r) in
      (
        r,
        sym (take-drop l.offset gcno) ∙ ap (λ t. take l.offset gcno ++ t) split,
        length-take l.offset gcno (ground arith),
        ap (λ t. take l.offset gcno ++ (string_record order l client_cwd ++ t)) tail,
      )

  found-Patched :
      gcno_order gcno ≡ some order
      → found_layouts order gcno server_cwd all_layouts ≡ l ∷ []
      → Patched gcno server_cwd client_cwd (patch_at order gcno server_cwd client_cwd l)
  found-Patched known found =
      let (tried, fits) =
        IsIn-found order gcno server_cwd l all_layouts
          (subst (λ ls. IsIn l ls) (sym found) (inl refl)) in
      let (r, whole, before, replaced) = fits-parts fits in
      record {
        order = order;
        place = l;
        header = take l.offset gcno;
        rest = r;
        known = known;
        tried = tried;
        before = before;
        whole = whole;
        replaced = replaced;
        only = λ k i f.
            elim (subst (λ ls. IsIn k ls) found
              (found-IsIn order gcno server_cwd k all_layouts i f)) [
                | inl e ↦ sym e
                | inr n ↦ absurd n
              ];
      }

-- Where patchGcnoCwd gives a .gcno, the file it was given has one of the two magics, and holds the
-- server's directory as the string of exactly one of the four layouts; the result has the client's
-- directory there, by the same layout and byte order, and all other bytes as they were.
pub patch_gcno_cwd-Patched :
    (gcno server_cwd client_cwd : Bytes) {out : Bytes}
    → patch_gcno_cwd gcno server_cwd client_cwd ≡ some out
    → Patched gcno server_cwd client_cwd out
unfolding patch_gcno_cwd
patch_gcno_cwd-Patched gcno server_cwd client_cwd e = elim (Bool-cases (ltb (length gcno) 4)) [
  | inl short ↦ cc (rw (short, patch_gcno_cwd) at e)
  | inr long ↦ elim (Option-cases (gcno_order gcno)) [
    | inl unknown ↦ cc (rw (long, patch_gcno_cwd, unknown) at e)
    | inr (order, known) ↦
        elim (Option-cases (only_one (found_layouts order gcno server_cwd all_layouts))) [
          | inl many ↦ cc (rw (long, patch_gcno_cwd, known, many) at e)
          | inr (l, one) ↦
              returns (λ o. Patched gcno server_cwd client_cwd o)
                (rw (long, patch_gcno_cwd, known, one) at e)
                (found-Patched order gcno server_cwd client_cwd l known (only_one-cases _ one))
        ]
  ]
]
