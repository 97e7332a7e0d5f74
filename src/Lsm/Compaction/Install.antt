-- ===== src/Lsm/Compaction/Install.antt =====
-- What a compaction leaves in the manifest and in the levels, crates/lsm/src/compaction.rs.
use exepense_db.Base.{
  ℕ, zero, suc, ◌+◌, ◌≡◌, ◌⊎◌, inl, inr, refl, subst, false, some, List, [], ◌∷◌, ◌++◌, Bool-cases,
  ==_refl, arith,
}
use exepense_db.Base.Members.{In, here, there, nth}
use exepense_db.Lsm.Manifest.{SstMeta}
use exepense_db.Lsm.Levels
use exepense_db.Lsm.Levels.{
  Tables, LevelState, Readers, reader_of, add_l0, l0_count, l0_compaction_trigger,
}
use exepense_db.Lsm.Compaction.{has_id, retain, retain_all, push_l1}

In-retain :
    (gone : List SstMeta) (ms : List SstMeta) {m : SstMeta}
    → In m (retain gone ms)
    → In m ms × (has_id m.id gone ≡ false)
unfolding retain
In-retain gone [] i = elim i [ ]
In-retain gone (n ∷ ms) {m} i = elim (Bool-cases (has_id n.id gone)) [
  | inl hit ↦ let (j, q) = In-retain gone ms (subst (In m) (rw hit) i) in (there j, q)
  | inr miss ↦ kept miss (subst (In m) (rw miss) i) (In-retain gone ms)
]
  where
    kept :
        {m : SstMeta}
        → has_id n.id gone ≡ false
        → In m (n ∷ retain gone ms)
        → (In m (retain gone ms) → In m ms × (has_id m.id gone ≡ false))
        → In m (n ∷ ms) × (has_id m.id gone ≡ false)
    kept miss here f = (here, miss)
    kept miss (there i) f = let (j, q) = f i in (there j, q)

retain-In :
    (gone : List SstMeta) (ms : List SstMeta) {m : SstMeta}
    → In m ms
    → has_id m.id gone ≡ false
    → In m (retain gone ms)
unfolding retain
retain-In gone [] i q = elim i [ ]
retain-In gone (m ∷ ms) here q = rw q here
retain-In gone (n ∷ ms) {m} (there i) q = elim (Bool-cases (has_id n.id gone)) [
  | inl hit ↦ rw hit (retain-In gone ms i q)
  | inr miss ↦ rw miss (there (retain-In gone ms i q))
]

nth-retain_all :
    (gone : List SstMeta) (i : ℕ) (ls : List (List SstMeta))
    → nth i (retain_all gone ls) ≡ retain gone (nth i ls)
unfolding retain_all nth retain
nth-retain_all gone i [] = refl
nth-retain_all gone zero (l ∷ ls) = refl
nth-retain_all gone (suc i) (l ∷ ls) = nth-retain_all gone i ls

In-snoc : {m n : SstMeta} (ms : List SstMeta) → In m (ms ++ (n ∷ [])) → (m ≡ n) ⊎ In m ms
In-snoc [] here = inl refl
In-snoc [] (there i) = elim i [ ]
In-snoc (x ∷ ms) here = inr here
In-snoc (x ∷ ms) (there i) = elim (In-snoc ms i) [ inl q ↦ inl q | inr j ↦ inr (there j) ]

snoc-In : (n : SstMeta) {m : SstMeta} (ms : List SstMeta) → In m ms → In m (ms ++ (n ∷ []))
snoc-In n [] i = elim i [ ]
snoc-In n (x ∷ ms) here = here
snoc-In n (x ∷ ms) (there i) = there (snoc-In n ms i)

snoc_last : {n : SstMeta} (ms : List SstMeta) → In n (ms ++ (n ∷ []))
snoc_last [] = here
snoc_last (x ∷ ms) = there (snoc_last ms)

In-push_l1 :
    (n : SstMeta) (i : ℕ) (ls : List (List SstMeta)) {m : SstMeta}
    → In m (nth i (push_l1 n ls))
    → ((m ≡ n) × (i ≡ 1)) ⊎ In m (nth i ls)
unfolding nth
In-push_l1 n zero [] j = inr j
In-push_l1 n (suc zero) [] here = inl (refl, refl)
In-push_l1 n (suc zero) [] (there j) = inr j
In-push_l1 n (suc (suc i)) [] j = inr j
In-push_l1 n zero (l0 ∷ []) j = inr j
In-push_l1 n (suc zero) (l0 ∷ []) here = inl (refl, refl)
In-push_l1 n (suc zero) (l0 ∷ []) (there j) = inr j
In-push_l1 n (suc (suc i)) (l0 ∷ []) j = inr j
In-push_l1 n zero (l0 ∷ l1 ∷ ls) j = inr j
In-push_l1 n (suc zero) (l0 ∷ l1 ∷ ls) j = at_one (In-snoc l1 j)
  where
    at_one : {m : SstMeta} → (m ≡ n) ⊎ In m l1 → ((m ≡ n) × (suc zero ≡ suc zero)) ⊎ In m l1
    at_one (inl q) = inl (q, refl)
    at_one (inr k) = inr k
In-push_l1 n (suc (suc i)) (l0 ∷ l1 ∷ ls) j = inr j

push_l1-In :
    (n : SstMeta) (i : ℕ) (ls : List (List SstMeta)) {m : SstMeta}
    → In m (nth i ls)
    → In m (nth i (push_l1 n ls))
unfolding nth
push_l1-In n i [] j = elim j [ ]
push_l1-In n zero (l0 ∷ []) j = j
push_l1-In n (suc i) (l0 ∷ []) j = elim j [ ]
push_l1-In n zero (l0 ∷ l1 ∷ ls) j = j
push_l1-In n (suc zero) (l0 ∷ l1 ∷ ls) j = snoc-In n l1 j
push_l1-In n (suc (suc i)) (l0 ∷ l1 ∷ ls) j = j

push_l1_there : (n : SstMeta) (ls : List (List SstMeta)) → In n (nth 1 (push_l1 n ls))
unfolding nth
push_l1_there n [] = here
push_l1_there n (l0 ∷ []) = here
push_l1_there n (l0 ∷ l1 ∷ ls) = snoc_last l1

module _ {Reader : Type 0} where
  pub l0_count-add_l0 :
      (s : LevelState Reader) (m : SstMeta) (r : Reader) → l0_count (add_l0 s m r) ≡ l0_count s + 1
  unfolding l0_count add_l0
  l0_count-add_l0 s m r = counts s.levels
    where
      counts :
          (ls : List (List SstMeta))
          → Levels.first_length (Levels.push_first m ls) ≡ Levels.first_length ls + 1
      counts [] = omega arith
      counts (l ∷ ls) = omega arith

  pub reader_of-add_l0 :
      (s : LevelState Reader) (m : SstMeta) (r : Reader)
      → reader_of m.id (add_l0 s m r).readers ≡ some r
  unfolding reader_of add_l0
  reader_of-add_l0 s m r = rw (==_refl m.id)

-- The manifest's levels without the tables `gone`, and with `m` in level 1.
pub record Replaced (gone : List SstMeta) (m : SstMeta) (before after : List (List SstMeta))
    : Type 0 where
  pub kept :
      (i : ℕ) (x : SstMeta) → In x (nth i before) → has_id x.id gone ≡ false → In x (nth i after)
  pub only :
      (i : ℕ) (x : SstMeta)
      → In x (nth i after)
      → ((x ≡ m) × (i ≡ 1)) ⊎ (In x (nth i before) × (has_id x.id gone ≡ false))
  pub placed : In m (nth 1 after)

pub push_l1-Replaced :
    (gone : List SstMeta) (m : SstMeta) (ls : List (List SstMeta))
    → Replaced gone m ls (push_l1 m (retain_all gone ls))
push_l1-Replaced gone m ls = record {
  kept = λ i x j q.
      push_l1-In m i (retain_all gone ls)
        (rw (nth-retain_all gone i ls) (retain-In gone (nth i ls) j q));
  only = λ i x j. elim (In-push_l1 m i (retain_all gone ls) j) [
    | inl q ↦ inl q
    | inr k ↦ inr (In-retain gone (nth i ls) (subst (In x) (nth-retain_all gone i ls) k))
  ];
  placed = push_l1_there m (retain_all gone ls);
}
