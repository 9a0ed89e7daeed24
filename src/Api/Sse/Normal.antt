-- ===== src/Api/Sse/Normal.antt =====
-- Line ends of a buffer to which text is appended: normalizing and cutting in any order.
use g_manager.Common.{
  ℕ, Bool, true, false, ◌&&◌, List, [], ◌∷◌, ◌++◌, ◌≡◌, refl, ap, ◌∙◌, subst, arith, inl, inr,
  Bool-cases, &&-eq-true, CodePoints, ◌==◌,
}
use g_manager.Api.Sse.{cr, lf, begins_lf, crlf}
use g_manager.Api.Sse.Frames.{IsCut, at_once, behind}

abbrev pub begins_cr : CodePoints → Bool
begins_cr [] = false
begins_cr (c ∷ s) = c == cr

-- No CR follows another one.
abbrev pub NoDoubleCr : CodePoints → Type 0
NoDoubleCr [] = Unit
NoDoubleCr (c ∷ s) = ((c == cr && begins_cr s) ≡ false) × NoDoubleCr s

-- No CR in front of an LF.
abbrev pub IsNormal : CodePoints → Type 0
IsNormal [] = Unit
IsNormal (c ∷ s) = ((c == cr && begins_lf s) ≡ false) × IsNormal s

abbrev pub join : List CodePoints → CodePoints
join [] = []
join (c ∷ cs) = c ++ join cs

-- A character that is not a CR stays where it is.
crlf-keeps : (d : ℕ) (s : CodePoints) → (d == cr) ≡ false → crlf (d ∷ s) ≡ d ∷ crlf s
unfolding crlf
crlf-keeps d s h = rw (h, crlf)

-- Behind a CR that is kept, the next character is kept too.
module _ (c : ℕ) where
  begins_lf-crlf_append :
      (s t : CodePoints)
      → (c == cr && begins_cr (s ++ t)) ≡ false
      → (c == cr && begins_lf (crlf s ++ t)) ≡ (c == cr && begins_lf (s ++ t))
  unfolding crlf
  begins_lf-crlf_append [] t h = refl
  begins_lf-crlf_append (d ∷ s) t h = elim (Bool-cases (d == cr)) [
    | inl again ↦ ground arith
    | inr other ↦ rw (crlf-keeps d s other)
  ]

  begins_cr-crlf_append :
      (s t : CodePoints)
      → (c == cr && begins_cr (s ++ t)) ≡ false
      → (c == cr && begins_cr (crlf s ++ t)) ≡ false
  unfolding crlf
  begins_cr-crlf_append [] t h = h
  begins_cr-crlf_append (d ∷ s) t h = elim (Bool-cases (d == cr)) [
    | inl again ↦ ground arith
    | inr other ↦ rw (crlf-keeps d s other) h
  ]

  begins_lf-crlf :
      (s : CodePoints)
      → (c == cr && begins_cr s) ≡ false
      → (c == cr && begins_lf s) ≡ false
      → (c == cr && begins_lf (crlf s)) ≡ false
  unfolding crlf
  begins_lf-crlf [] h k = ground arith
  begins_lf-crlf (d ∷ s) h k = elim (Bool-cases (d == cr)) [
    | inl again ↦ ground arith
    | inr other ↦ rw (crlf-keeps d s other) k
  ]

crlf-true : (c : ℕ) (s : CodePoints) → (c == cr && begins_lf s) ≡ true → crlf (c ∷ s) ≡ crlf s
unfolding crlf
crlf-true c s h = rw (h, crlf)

pub crlf-false :
    (c : ℕ) (s : CodePoints) → (c == cr && begins_lf s) ≡ false → crlf (c ∷ s) ≡ c ∷ crlf s
unfolding crlf
crlf-false c s h = rw (h, crlf)

begins_lf-append : (s t : CodePoints) → begins_lf s ≡ true → begins_lf (s ++ t) ≡ true
begins_lf-append [] t h = cc h
begins_lf-append (d ∷ s) t h = h

true_append :
    (c : ℕ) (s t : CodePoints)
    → (c == cr && begins_lf s) ≡ true
    → (c == cr && begins_lf (s ++ t)) ≡ true
true_append c s t h =
    let both = &&-eq-true (c == cr) (begins_lf s) h in rw (both.0, begins_lf-append s t both.1)

crlf-cong :
    (c : ℕ) (s t : CodePoints)
    → (c == cr && begins_lf s) ≡ (c == cr && begins_lf t)
    → crlf s ≡ crlf t
    → crlf (c ∷ s) ≡ crlf (c ∷ t)
unfolding crlf
crlf-cong c s t e h = rw (e, crlf) (rw h refl)

-- Normalizing a prefix first changes nothing.
pub crlf-append : (s t : CodePoints) → NoDoubleCr (s ++ t) → crlf (crlf s ++ t) ≡ crlf (s ++ t)
crlf-append [] t h = unfold crlf in refl
crlf-append (c ∷ s) t h = elim (Bool-cases (c == cr && begins_lf s)) [
  | inl gone ↦
      rw (crlf-true c s gone, crlf-true c (s ++ t) (true_append c s t gone)) (crlf-append s t h.1)
  | inr kept ↦
      rw (crlf-false c s kept)
        (crlf-cong c (crlf s ++ t) (s ++ t) (begins_lf-crlf_append c s t h.0) (crlf-append s t h.1))
]

pub NoDoubleCr-crlf : (s t : CodePoints) → NoDoubleCr (s ++ t) → NoDoubleCr (crlf s ++ t)
NoDoubleCr-crlf [] t h = unfold crlf in h
NoDoubleCr-crlf (c ∷ s) t h = elim (Bool-cases (c == cr && begins_lf s)) [
  | inl gone ↦ rw (crlf-true c s gone) (NoDoubleCr-crlf s t h.1)
  | inr kept ↦ rw (crlf-false c s kept) (begins_cr-crlf_append c s t h.0, NoDoubleCr-crlf s t h.1)
]

pub crlf-IsNormal : (s : CodePoints) → NoDoubleCr s → IsNormal (crlf s)
crlf-IsNormal [] h = unfold crlf in tt
crlf-IsNormal (c ∷ s) h = elim (Bool-cases (c == cr && begins_lf s)) [
  | inl gone ↦ rw (crlf-true c s gone) (crlf-IsNormal s h.1)
  | inr kept ↦ rw (crlf-false c s kept) (begins_lf-crlf c s h.0 kept, crlf-IsNormal s h.1)
]

-- A buffer begins as the frame that is cut off it.
abbrev frame_begins_lf : CodePoints → Bool
frame_begins_lf [] = true
frame_begins_lf (c ∷ f) = c == lf

IsCut-begins : {s f r : CodePoints} → IsCut s f r → begins_lf s ≡ frame_begins_lf f
IsCut-begins (at_once e e') = rw (e, e')
IsCut-begins (behind c later e e' k) = rw (e, e')

IsCut-begins_append :
    {s f r : CodePoints} (t : CodePoints) → IsCut s f r → begins_lf (s ++ t) ≡ begins_lf s
IsCut-begins_append t (at_once e e') = rw e
IsCut-begins_append t (behind c later e e' k) = rw e

-- What is cut off a normal text stays cut off when more text arrives.
pub IsCut-append :
    {s f r : CodePoints} (t : CodePoints)
    → IsNormal s
    → IsCut s f r
    → IsCut (crlf (s ++ t)) f (crlf (r ++ t))
IsCut-append {r} t n (at_once e e') =
    at_once
      (ap (λ x. crlf (x ++ t)) e
        ∙ crlf-keeps lf (lf ∷ r ++ t) refl
        ∙ ap (λ x. lf ∷ x) (crlf-keeps lf (r ++ t) refl))
      e'
IsCut-append {r} t n (behind {t = u} {g} c later e e' k) =
    let normal = subst IsNormal e n in
    let ih = IsCut-append t normal.1 k in
    behind c (rw (IsCut-begins ih, ← IsCut-begins k) later)
      (ap (λ x. crlf (x ++ t)) e ∙ crlf-false c (u ++ t) (rw (IsCut-begins_append t k) normal.0)) e'
      ih

pub IsNormal-rest : {s f r : CodePoints} → IsNormal s → IsCut s f r → IsNormal r
IsNormal-rest n (at_once e e') = (subst IsNormal e n).1.1
IsNormal-rest n (behind c later e e' k) = IsNormal-rest (subst IsNormal e n).1 k

NoDoubleCr-drop : (s t : CodePoints) → NoDoubleCr (s ++ t) → NoDoubleCr t
NoDoubleCr-drop [] t h = h
NoDoubleCr-drop (c ∷ s) t h = NoDoubleCr-drop s t h.1

pub NoDoubleCr-take : (s t : CodePoints) → NoDoubleCr (s ++ t) → NoDoubleCr s
NoDoubleCr-take [] t h = tt
NoDoubleCr-take (c ∷ []) t h = (ground arith, tt)
NoDoubleCr-take (c ∷ d ∷ s) t h = (h.0, NoDoubleCr-take (d ∷ s) t h.1)

pub NoDoubleCr-rest :
    {s f r : CodePoints} (t : CodePoints) → IsCut s f r → NoDoubleCr (s ++ t) → NoDoubleCr (r ++ t)
NoDoubleCr-rest t (at_once e e') h = (subst (λ x. NoDoubleCr (x ++ t)) e h).1.1
NoDoubleCr-rest t (behind c later e e' k) h =
    NoDoubleCr-rest t k (subst (λ x. NoDoubleCr (x ++ t)) e h).1
