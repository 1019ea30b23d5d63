-- ===== src/SharedPointer/Bases.antt =====
-- When the reader of section-05/lab/shared_mem finds what the writer's pointer points to.
use zhone_engineering_academ.Common.{
  ℕ, ◌+◌, ◌-◌, ◌*◌, ◌/◌, ◌%◌, ◌<◌, ◌≡◌, refl, some, ◌==◌, ◌&&◌, ltb, arith, Bool-cases, inl, inr,
  ◌↔◌, false, lt→ltb,
}
use zhone_engineering_academ.SharedPointer.{
  Segment, zeros, address, deref, secret, writer_stores, show, read_back,
}

-- A pointer to a long of the segment.
deref-address :
    (base : ℕ) (segment : Segment) (i : ℕ)
    → i < 512
    → deref base segment (address base i) ≡ some (segment i)
unfolding deref
deref-address base segment i inside =
    let offset : base + 8 * i - base ≡ 8 * i = omega arith in
    let index : 8 * i / 8 ≡ i = omega arith in
    let aligned : 8 * i % 8 ≡ 0 = omega arith in
    let above : ltb (base + 8 * i) base ≡ false = ground arith in
    rw (above, offset, index, aligned, lt→ltb i 512 inside) refl

-- A pointer that can be followed points to a long of the segment.
deref-some :
    (base : ℕ) (segment : Segment) (p : ℕ) {v : ℕ}
    → deref base segment p ≡ some v
    → (i : ℕ) × (address base i ≡ p) × (segment i ≡ v)
unfolding deref
deref-some base segment p {v} e = elim (Bool-cases (ltb p base)) [
  | inl below ↦ let e' = rw below at e in cc
  | inr above ↦ elim (Bool-cases (ltb ((p - base) / 8) 512 && (p - base) % 8 == 0)) [
    | inr out ↦ let e' = rw (above, out) at e in cc
    | inl inside ↦
        let e' = rw (above, inside) at e in
        let same : segment ((p - base) / 8) ≡ v = cc in
        ((p - base) / 8, ground (arith, above, inside), same)
  ]
]

-- Only the one long holds the value: the pointer, of a page, is not that number by chance.
secret_at : (writers i : ℕ) → writers % 4096 ≡ 0 → writer_stores writers zeros i ≡ secret → i ≡ 50
unfolding writer_stores
secret_at writers i page value = ground (arith, value, page)

-- The pointer that the writer has stored leads the reader to the value if and only if `shmat` has
-- given both the same address, a multiple of 4096. Read by its place in the segment, the value is
-- there in any case.
pub read_back-follows :
    (writers readers : ℕ)
    → writers % 4096 ≡ 0
    → ((read_back writers readers).target ≡ secret)
      × ((read_back writers readers).p ≡ address writers 50)
      × (((read_back writers readers).dereferenced ≡ some secret) ↔ (writers ≡ readers))
unfolding read_back show writer_stores
read_back-follows writers readers page = (
  refl,
  refl,
  (
    λ e.
        let (i, at, value) = deref-some readers _ (address writers 50) e in
        let fifty = secret_at writers i page value in omega (arith, at, fifty),
    λ same. rw (← same) (deref-address writers (writer_stores writers zeros) 50 (omega arith)),
  ),
)
