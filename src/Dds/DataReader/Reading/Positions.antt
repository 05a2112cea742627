-- ===== src/Dds/DataReader/Reading/Positions.antt =====
-- The positions that `read` and `take` go through, and what is at them.
use dust_dds.Base.{
  ℕ, zero, suc, ◌≡◌, refl, ap, ◌∙◌, Bool, List, [], ◌∷◌, map, if◌then◌else◌, Outcome, ret, panic,
  stuck, ◌>>=◌, Bool-cases, inl, inr,
}
use dust_dds.Dds.DataReader.{ReaderSample, sample_read}
use dust_dds.Dds.DataReader.Reading.{remove_at, remove_all, mark_read, mark_all_read}

module _ (p : ReaderSample → Bool) where
  -- The positions, from `i` on, of the first `n` samples of the list with `p`.
  unfoldable pub positions : ℕ → ℕ → List ReaderSample → List ℕ
  positions zero i ccs = []
  positions (suc n) i [] = []
  positions (suc n) i (cc ∷ ccs) =
      let chosen = positions n (suc i) ccs in
      let passed = positions (suc n) (suc i) ccs in if p cc then i ∷ chosen else passed

  -- The list without its first `n` samples with `p`, and with these marked as read.
  unfoldable pub left : ℕ → List ReaderSample → List ReaderSample
  left zero ccs = ccs
  left (suc n) [] = []
  left (suc n) (cc ∷ ccs) =
      let chosen = left n ccs in
      let passed = left (suc n) ccs in if p cc then chosen else cc ∷ passed

  unfoldable pub marked : ℕ → List ReaderSample → List ReaderSample
  marked zero ccs = ccs
  marked (suc n) [] = []
  marked (suc n) (cc ∷ ccs) =
      let chosen = marked n ccs in
      let passed = marked (suc n) ccs in
      if p cc then record cc { sample_state = sample_read } ∷ chosen else cc ∷ passed

  positions-suc :
      (n i : ℕ) (ccs : List ReaderSample)
      → positions n (suc i) ccs ≡ map (λ k. suc k) (positions n i ccs)
  unfolding positions
  positions-suc zero i ccs = refl
  positions-suc (suc n) i [] = refl
  positions-suc (suc n) i (cc ∷ ccs) = elim (Bool-cases (p cc)) [
    | inl e ↦ rw e (ap (◌∷◌ (suc i)) (positions-suc n (suc i) ccs))
    | inr e ↦ rw e (positions-suc (suc n) (suc i) ccs)
  ]

abbrev keep : ReaderSample → List ReaderSample → Outcome (List ReaderSample)
keep cc ccs = ret (cc ∷ ccs)

module _ (cc : ReaderSample) where
  remove_all-suc :
      (is : List ℕ) (ccs : List ReaderSample)
      → remove_all (map (λ k. suc k) is) (cc ∷ ccs) ≡ (remove_all is ccs >>= keep cc)
  unfolding remove_all remove_at
  remove_all-suc [] ccs = refl
  remove_all-suc (i ∷ is) ccs =
      ap (λ o. o >>= remove_at (suc i)) (remove_all-suc is ccs) ∙ same (remove_all is ccs)
    where
      same :
          (o : Outcome (List ReaderSample))
          → ((o >>= keep cc) >>= remove_at (suc i)) ≡ ((o >>= remove_at i) >>= keep cc)
      same (ret ss) = refl
      same panic = refl
      same stuck = refl

  mark_all_read-suc :
      (is : List ℕ) (ccs : List ReaderSample)
      → mark_all_read (map (λ k. suc k) is) (cc ∷ ccs) ≡ (mark_all_read is ccs >>= keep cc)
  unfolding mark_all_read mark_read
  mark_all_read-suc [] ccs = refl
  mark_all_read-suc (i ∷ is) ccs = same (mark_read i ccs) (mark_all_read-suc is)
    where
      same :
          (o : Outcome (List ReaderSample))
          → ((ss : List ReaderSample)
              → mark_all_read (map (λ k. suc k) is) (cc ∷ ss) ≡ (mark_all_read is ss >>= keep cc))
          → ((o >>= keep cc) >>= mark_all_read (map (λ k. suc k) is))
            ≡ ((o >>= mark_all_read is) >>= keep cc)
      same (ret ss) ih = ih ss
      same panic ih = refl
      same stuck ih = refl

module _ (p : ReaderSample → Bool) where
  -- Removing the positions from the last to the first leaves the other samples, in their order.
  pub remove_all-positions :
      (n : ℕ) (ccs : List ReaderSample) → remove_all (positions p n 0 ccs) ccs ≡ ret (left p n ccs)
  unfolding positions left remove_all remove_at
  remove_all-positions zero ccs = refl
  remove_all-positions (suc n) [] = refl
  remove_all-positions (suc n) (cc ∷ ccs) = elim (Bool-cases (p cc)) [
    | inl e ↦
        rw
          (
            e,
            positions-suc p n 0 ccs,
            remove_all-suc cc (positions p n 0 ccs) ccs,
            remove_all-positions n ccs,
          )
          refl
    | inr e ↦
        rw
          (
            e,
            positions-suc p (suc n) 0 ccs,
            remove_all-suc cc (positions p (suc n) 0 ccs) ccs,
            remove_all-positions (suc n) ccs,
          )
          refl
  ]

  pub mark_all_read-positions :
      (n : ℕ) (ccs : List ReaderSample)
      → mark_all_read (positions p n 0 ccs) ccs ≡ ret (marked p n ccs)
  unfolding positions marked mark_all_read mark_read
  mark_all_read-positions zero ccs = refl
  mark_all_read-positions (suc n) [] = refl
  mark_all_read-positions (suc n) (cc ∷ ccs) = elim (Bool-cases (p cc)) [
    | inl e ↦
        rw
          (
            e,
            positions-suc p n 0 ccs,
            mark_all_read-suc (record cc { sample_state = sample_read }) (positions p n 0 ccs) ccs,
            mark_all_read-positions n ccs,
          )
          refl
    | inr e ↦
        rw
          (
            e,
            positions-suc p (suc n) 0 ccs,
            mark_all_read-suc cc (positions p (suc n) 0 ccs) ccs,
            mark_all_read-positions (suc n) ccs,
          )
          refl
  ]
