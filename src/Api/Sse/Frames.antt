-- ===== src/Api/Sse/Frames.antt =====
-- Cutting complete frames off a buffer.
use g_manager.Common.{
  ℕ, zero, suc, ◌≤◌, ◌<◌, Bool, true, false, ◌&&◌, Option, none, some, List, [], ◌∷◌, ◌++◌, ◌≡◌,
  refl, sym, ap, ◌∙◌, arith, inl, inr, Bool-cases, Option-cases, CodePoints, length, ◌==◌,
  &&-eq-true,
}
use g_manager.Api.Sse.{lf, begins_lf, tail, push_front, cut, drain_from, drain}

begins_lf-eq : (s : CodePoints) → begins_lf s ≡ true → s ≡ lf ∷ tail s
begins_lf-eq [] h = ground arith
begins_lf-eq (c ∷ s) h = ground arith

abbrev at_break : ℕ → CodePoints → Bool
at_break c s = c == lf && begins_lf s

-- How a frame is cut off the buffer: at once, or behind its first character.
pub data IsCut : CodePoints → CodePoints → CodePoints → Type 0 where
  at_once : {s f r : CodePoints} → s ≡ lf ∷ lf ∷ r → f ≡ [] → IsCut s f r
  behind :
      {s f r t g : CodePoints} (c : ℕ)
      → (c == lf && begins_lf t) ≡ false
      → s ≡ c ∷ t
      → f ≡ c ∷ g
      → IsCut t g r
      → IsCut s f r

push_front-eq :
    (c : ℕ) (o : Option (CodePoints × CodePoints)) (f r : CodePoints)
    → push_front c o ≡ some (f, r)
    → (g : CodePoints) × (o ≡ some (g, r)) × (f ≡ c ∷ g)
push_front-eq c none f r h = cc h
push_front-eq c (some (g, q)) f r h = (g, ground arith, ground arith)

pub cut-IsCut : (s f r : CodePoints) → cut s ≡ some (f, r) → IsCut s f r
unfolding cut
cut-IsCut [] f r h = cc h
cut-IsCut (c ∷ s) f r h = elim (Bool-cases (at_break c s)) [
  | inl now ↦
      let lfs = &&-eq-true (c == lf) (begins_lf s) now in
      let e : cut (c ∷ s) ≡ some ([], tail s) = rw (now, cut) in
      at_once (ground (arith, lfs, begins_lf-eq s lfs.1, e)) (ground (arith, e))
  | inr later ↦
      let e : cut (c ∷ s) ≡ push_front c (cut s) = rw (later, cut) in
      let (g, found, same) = push_front-eq c (cut s) f r (sym e ∙ h) in
      behind c later refl same (cut-IsCut s g r found)
]

pub IsCut-cut : {s f r : CodePoints} → IsCut s f r → cut s ≡ some (f, r)
unfolding cut
IsCut-cut (at_once e e') = rw (e, e')
IsCut-cut (behind c later e e' k) = rw (e, e', later) (rw (IsCut-cut k) refl)

-- The remainder is shorter than the buffer.
pub IsCut-length : {s f r : CodePoints} → IsCut s f r → length r < length s
IsCut-length (at_once e e') = rw e (omega arith)
IsCut-length (behind c later e e' k) = rw e (omega (arith, IsCut-length k))

drain_from-none : (n : ℕ) (s : CodePoints) → cut s ≡ none → drain_from n s ≡ ([], s)
unfolding drain_from
drain_from-none zero s h = refl
drain_from-none (suc n) s h = rw (h, drain_from)

drain_from-some :
    (n : ℕ) (s f r : CodePoints)
    → cut s ≡ some (f, r)
    → drain_from (suc n) s ≡ (f ∷ (drain_from n r).0, (drain_from n r).1)
unfolding drain_from
drain_from-some n s f r h = rw (h, drain_from)

-- Any fuel from the length of the buffer on gives the same result.
drain_from-enough :
    (n m : ℕ) (s : CodePoints) → length s ≤ n → length s ≤ m → drain_from n s ≡ drain_from m s
drain_from-enough zero m s h k = elim (Option-cases (cut s)) [
  | inl e ↦ drain_from-none zero s e ∙ sym (drain_from-none m s e)
  | inr ((f, r), e) ↦ absurd (omega (arith, h, IsCut-length (cut-IsCut s f r e)))
]
drain_from-enough (suc n) zero s h k = elim (Option-cases (cut s)) [
  | inl e ↦ drain_from-none (suc n) s e ∙ sym (drain_from-none zero s e)
  | inr ((f, r), e) ↦ absurd (omega (arith, k, IsCut-length (cut-IsCut s f r e)))
]
drain_from-enough (suc n) (suc m) s h k = elim (Option-cases (cut s)) [
  | inl e ↦ drain_from-none (suc n) s e ∙ sym (drain_from-none (suc m) s e)
  | inr ((f, r), e) ↦
      let less = IsCut-length (cut-IsCut s f r e) in
      let same = drain_from-enough n m r (omega arith) (omega arith) in
      drain_from-some n s f r e ∙ ap (λ p. (f ∷ p.0, p.1)) same ∙ sym (drain_from-some m s f r e)
]

pub drain-none : (s : CodePoints) → cut s ≡ none → drain s ≡ ([], s)
unfolding drain
drain-none s h = drain_from-none (length s) s h

pub drain-some :
    (s f r : CodePoints) → cut s ≡ some (f, r) → drain s ≡ (f ∷ (drain r).0, (drain r).1)
unfolding drain
drain-some s f r h =
    let less = IsCut-length (cut-IsCut s f r h) in
    drain_from-enough (length s) (suc (length s)) s (omega arith) (omega arith)
    ∙ drain_from-some (length s) s f r h
    ∙ ap (λ p. (f ∷ p.0, p.1))
        (drain_from-enough (length s) (length r) r (omega arith) (omega arith))

drain_below : (n : ℕ) (s : CodePoints) → length s ≤ n → cut (drain s).1 ≡ none
drain_below zero s h = elim (Option-cases (cut s)) [
  | inl e ↦ rw (drain-none s e) e
  | inr ((f, r), e) ↦ absurd (omega (arith, h, IsCut-length (cut-IsCut s f r e)))
]
drain_below (suc n) s h = elim (Option-cases (cut s)) [
  | inl e ↦ rw (drain-none s e) e
  | inr ((f, r), e) ↦
      let less = IsCut-length (cut-IsCut s f r e) in
      rw (drain-some s f r e) (drain_below n r (omega arith))
]

-- Frames, each with its empty line.
abbrev pub unframe : List CodePoints → CodePoints → CodePoints
unframe [] rest = rest
unframe (f ∷ fs) rest = f ++ lf ∷ lf ∷ unframe fs rest

IsCut-eq : {s f r : CodePoints} → IsCut s f r → s ≡ f ++ lf ∷ lf ∷ r
IsCut-eq (at_once e e') = rw (e, e')
IsCut-eq (behind c later e e' k) = rw (e, e') (ap (λ t. c ∷ t) (IsCut-eq k))

unframe-below : (n : ℕ) (s : CodePoints) → length s ≤ n → unframe (drain s).0 (drain s).1 ≡ s
unframe-below zero s h = elim (Option-cases (cut s)) [
  | inl e ↦ rw (drain-none s e)
  | inr ((f, r), e) ↦ absurd (omega (arith, h, IsCut-length (cut-IsCut s f r e)))
]
unframe-below (suc n) s h = elim (Option-cases (cut s)) [
  | inl e ↦ rw (drain-none s e)
  | inr ((f, r), e) ↦
      let less = IsCut-length (cut-IsCut s f r e) in
      rw (drain-some s f r e) (
        ap (λ t. f ++ lf ∷ lf ∷ t) (unframe-below n r (omega arith))
        ∙ sym (IsCut-eq (cut-IsCut s f r e)))
]

-- The inner loop takes every complete frame: no empty line is left in the buffer, and the frames with
-- their empty lines and the remainder are the buffer.
pub drain_complete :
    (s : CodePoints) → (cut (drain s).1 ≡ none) × (unframe (drain s).0 (drain s).1 ≡ s)
drain_complete s =
    (drain_below (length s) s (omega arith), unframe-below (length s) s (omega arith))
