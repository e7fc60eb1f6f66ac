-- ===== src/Os/Endings.antt =====
-- The last element of a path that a name with an ending was joined to.
use baseline_integrity.Base.{
  ℕ, ◌<◌, ◌≡◌, ◌∙◌, refl, ap, true, ◌==◌, List, [], ◌∷◌, ◌++◌, length, length-append, Text, arith,
  inl, inr, Bool-cases,
}
use baseline_integrity.Os.{
  FilePath, join, push, push_all, split_slash, split_slash-plain, onto_first, slash, has_no_slash,
}

push_all-append :
    (p : FilePath) (es : List Text) (z : Text) → push_all p (es ++ z ∷ []) ≡ push (push_all p es) z
unfolding push_all
push_all-append p [] z = refl
push_all-append p (e ∷ es) z = push_all-append (push p e) es z

push-long : (p : FilePath) (z : Text) → 2 < length z → push p z ≡ z ∷ p
unfolding push
push-long p [] h = absurd (omega arith)
push-long p (a ∷ []) h = absurd (omega arith)
push-long p (a ∷ c ∷ []) h = absurd (omega arith)
push-long p (a ∷ c ∷ d ∷ s) h = refl

module _ (ending : Text) (plain : has_no_slash ending ≡ true) (long : 2 < length ending) where
  onto_first-ending :
      (c : ℕ) (es : List Text) (y : Text)
      → (es' : List Text) × (y' : Text) × (onto_first c (es ++ (y ++ ending) ∷ [])
          ≡ es' ++ (y' ++ ending) ∷ [])
  onto_first-ending c [] y = elim (Bool-cases (c == slash)) [
    | inl cut ↦ ([] ∷ [], y, rw cut refl)
    | inr kept ↦ ([], c ∷ y, rw kept refl)
  ]
  onto_first-ending c (e ∷ es) y = elim (Bool-cases (c == slash)) [
    | inl cut ↦ ([] ∷ e ∷ es, y, rw cut refl)
    | inr kept ↦ ((c ∷ e) ∷ es, y, rw kept refl)
  ]

  split_slash-ending :
      (x : Text)
      → (es : List Text) × (y : Text) × (split_slash (x ++ ending) ≡ es ++ (y ++ ending) ∷ [])
  unfolding split_slash
  split_slash-ending [] = ([], [], whole ending plain long)
    where
      whole : (s : Text) → has_no_slash s ≡ true → 2 < length s → split_slash s ≡ s ∷ []
      whole [] h k = absurd (omega arith)
      whole (c ∷ s) h k = split_slash-plain c s h
  split_slash-ending (c ∷ x) =
      let (es, y, e) = split_slash-ending x in
      let (es', y', e') = onto_first-ending c es y in (es', y', ap (onto_first c) e ∙ e')

  -- Whatever the name is, separators and dots included, the ending stays at the end.
  pub join-ending :
      (p : FilePath) (x : Text)
      → (y : Text) × (q : FilePath) × (join p (x ++ ending) ≡ (y ++ ending) ∷ q)
  unfolding join
  join-ending p x =
      let (es, y, e) = split_slash-ending x in
      (
        y,
        push_all p es,
        ap (push_all p) e
            ∙ push_all-append p es (y ++ ending)
            ∙ push-long (push_all p es) (y ++ ending) (omega (arith, long, length-append y ending)),
      )
