-- ===== src/Combine/Samples.antt =====
-- client-lib/src/util/SchemaUtil.ts, `combineSampleRecords`: how many records there are after it.
use datapm.Common.{
  ℕ, zero, suc, ◌+◌, ◌≤◌, some, List, [], ◌∷◌, length, ltb, ltb-true, ◌≡◌, refl, inl, inr,
  Bool-cases, arith,
}
use datapm.PackageFile.Json.{Members}
use datapm.Combine.Labels.{take_turns, combine_sample_records, sample_record_count_max}

-- With one of the lists at its end, a round adds one record at most.
one_list :
    (rounds taken : ℕ) (xs : List Members)
    → taken ≤ 100
    → (taken + length (take_turns rounds taken xs []) ≤ 100)
      × (taken + length (take_turns rounds taken [] xs) ≤ 100)
unfolding take_turns
one_list zero taken xs h = (omega arith, omega arith)
one_list (suc rounds) taken [] h = (omega arith, omega arith)
one_list (suc rounds) taken (x ∷ xs) h = elim (Bool-cases (ltb taken 100)) [
  | inl room ↦
      let k = ltb-true _ _ room in
      let (a, b) = one_list rounds (taken + 1) xs (omega arith) in
      (rw room (omega arith), rw room (omega arith))
  | inr full ↦ (rw full (omega arith), rw full (omega arith))
]

-- With both, it adds two, and the number that is taken is even.
two_lists :
    (rounds taken half : ℕ) (xs ys : List Members)
    → taken ≡ half + half
    → taken ≤ 100
    → taken + length (take_turns rounds taken xs ys) ≤ 100
unfolding take_turns
two_lists zero taken half xs ys e h = omega arith
two_lists (suc rounds) taken half [] ys e h = (one_list (suc rounds) taken ys h).1
two_lists (suc rounds) taken half (x ∷ xs) [] e h = (one_list (suc rounds) taken (x ∷ xs) h).0
two_lists (suc rounds) taken half (x ∷ xs) (y ∷ ys) e h = elim (Bool-cases (ltb taken 100)) [
  | inl room ↦
      let k = ltb-true _ _ room in
      let rest = two_lists rounds (taken + 2) (half + 1) xs ys (omega arith) (omega arith) in
      rw room (omega arith)
  | inr full ↦ rw full (omega arith)
]

-- However many records the existing schema and the new one have, the combined one has no more than
-- a hundred, if both have some list of them.
combine_sample_records-length_le :
    (existing new : List Members)
    → (records : List Members) × (combine_sample_records (some existing) (some new) ≡ some records)
      × (length records ≤ sample_record_count_max)
unfolding combine_sample_records
combine_sample_records-length_le existing new =
    let rounds = length existing + length new in
    let bound = two_lists rounds 0 0 existing new refl (omega arith) in
    (take_turns rounds 0 existing new, refl, omega arith)
