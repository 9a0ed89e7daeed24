-- ===== src/Api/Sse/Chunks.antt =====
-- The events do not depend on how the stream is cut into chunks.
use mathlib.Core.List.{append_assoc, append-nil}
use g_manager.Common.{
  ℕ, zero, suc, ◌≤◌, Bool, true, false, none, List, [], ◌∷◌, ◌++◌, ◌≡◌, refl, sym, ap, ◌∙◌, subst,
  arith, inl, inr, Bool-cases, Option-cases, CodePoints, length,
}
use g_manager.Api.Sse.{
  crlf, cut, drain, Message, Emitted, emit_frame, emit_all, consume, consume_sse,
}
use g_manager.Api.Sse.Frames.{
  IsCut, cut-IsCut, IsCut-cut, IsCut-length, drain-none, drain-some, drain_complete,
}
use g_manager.Api.Sse.Normal.{
  NoDoubleCr, IsNormal, join, crlf-append, NoDoubleCr-crlf, crlf-IsNormal, crlf-false, IsCut-append,
  IsNormal-rest, NoDoubleCr-take, NoDoubleCr-rest,
}

abbrev also : List CodePoints → List CodePoints × CodePoints → List CodePoints × CodePoints
also fs p = (fs ++ p.0, p.1)

-- Draining a normal text, and then its remainder with more text behind it, is draining all at once.
drain-append :
    (n : ℕ) (s t : CodePoints)
    → length s ≤ n
    → IsNormal s
    → drain (crlf (s ++ t)) ≡ also (drain s).0 (drain (crlf ((drain s).1 ++ t)))
drain-append zero s t h normal = elim (Option-cases (cut s)) [
  | inl e ↦ rw (drain-none s e)
  | inr ((f, r), e) ↦ absurd (omega (arith, h, IsCut-length (cut-IsCut s f r e)))
]
drain-append (suc n) s t h normal = elim (Option-cases (cut s)) [
  | inl e ↦ rw (drain-none s e)
  | inr ((f, r), e) ↦
      let c = cut-IsCut s f r e in
      let less = IsCut-length c in
      rw (drain-some s f r e) (
        drain-some (crlf (s ++ t)) f (crlf (r ++ t)) (IsCut-cut (IsCut-append t normal c))
        ∙ ap (λ p. (f ∷ p.0, p.1)) (drain-append n r t (omega arith) (IsNormal-rest normal c)))
]

-- The remainder keeps what holds of the buffer.
module _ (P : CodePoints → Type 0) (keep : (s f r : CodePoints) → IsCut s f r → P s → P r) where
  drain-keeps : (n : ℕ) (s : CodePoints) → length s ≤ n → P s → P (drain s).1
  drain-keeps zero s h p = elim (Option-cases (cut s)) [
    | inl e ↦ rw (drain-none s e) p
    | inr ((f, r), e) ↦ absurd (omega (arith, h, IsCut-length (cut-IsCut s f r e)))
  ]
  drain-keeps (suc n) s h p = elim (Option-cases (cut s)) [
    | inl e ↦ rw (drain-none s e) p
    | inr ((f, r), e) ↦
        let less = IsCut-length (cut-IsCut s f r e) in
        rw (drain-some s f r e) (drain-keeps n r (omega arith) (keep s f r (cut-IsCut s f r e) p))
  ]

crlf_of_IsNormal : (s : CodePoints) → IsNormal s → crlf s ≡ s
crlf_of_IsNormal [] h = unfold crlf in refl
crlf_of_IsNormal (c ∷ s) h = crlf-false c s h.0 ∙ ap (λ x. c ∷ x) (crlf_of_IsNormal s h.1)

-- The frames of all chunks, where nothing is thrown.
collect : CodePoints → List CodePoints → List CodePoints
collect buffer [] = []
collect buffer (c ∷ cs) =
    (drain (crlf (buffer ++ c))).0 ++ collect (drain (crlf (buffer ++ c))).1 cs

collect-eq :
    (buffer : CodePoints) (chunks : List CodePoints)
    → NoDoubleCr (buffer ++ join chunks)
    → cut (crlf buffer) ≡ none
    → collect buffer chunks ≡ (drain (crlf (buffer ++ join chunks))).0
unfolding collect
collect-eq buffer [] h none_yet =
    rw append-nil
      (sym (ap (λ (p : List CodePoints × CodePoints). p.0) (drain-none (crlf buffer) none_yet)))
collect-eq buffer (c ∷ cs) h none_yet =
    let x = crlf (buffer ++ c) in
    let split : buffer ++ (c ++ join cs) ≡ (buffer ++ c) ++ join cs =
      sym (append_assoc buffer c (join cs)) in
    let clean = subst NoDoubleCr split h in
    let normal = crlf-IsNormal (buffer ++ c) (NoDoubleCr-take (buffer ++ c) (join cs) clean) in
    let rest_normal =
      drain-keeps IsNormal (λ s f r k p. IsNormal-rest p k) (length x) x (omega arith) normal in
    let rest_clean =
      drain-keeps (λ s. NoDoubleCr (s ++ join cs)) (λ s f r k p. NoDoubleCr-rest (join cs) k p)
        (length x) x (omega arith) (NoDoubleCr-crlf (buffer ++ c) (join cs) clean) in
    let ih =
      collect-eq (drain x).1 cs rest_clean
        (ap cut (crlf_of_IsNormal (drain x).1 rest_normal) ∙ (drain_complete x).0) in
    ap (λ fs. (drain x).0 ++ fs) ih
    ∙ sym (
        ap (λ (p : List CodePoints × CodePoints). p.0)
          (ap (λ y. drain (crlf y)) split
            ∙ ap drain (sym (crlf-append (buffer ++ c) (join cs) clean))
            ∙ drain-append (length x) x (join cs) (omega arith) normal))

module _ (name : CodePoints) (accepts : Message → Bool) where
  emit_all-threw :
      (fs : List CodePoints) (e : Emitted) → e.threw ≡ true → emit_all name accepts fs e ≡ e
  unfolding emit_all
  emit_all-threw [] e h = refl
  emit_all-threw (f ∷ fs) e h =
      let same : emit_frame name accepts f e ≡ e = unfold emit_frame in ground arith in
      ap (emit_all name accepts fs) same ∙ emit_all-threw fs e h

  emit_all-append :
      (fs gs : List CodePoints) (e : Emitted)
      → emit_all name accepts (fs ++ gs) e ≡ emit_all name accepts gs (emit_all name accepts fs e)
  unfolding emit_all
  emit_all-append [] gs e = refl
  emit_all-append (f ∷ fs) gs e = emit_all-append fs gs (emit_frame name accepts f e)

  consume-eq :
      (buffer : CodePoints) (chunks : List CodePoints) (e : Emitted)
      → e.threw ≡ false
      → consume name accepts buffer chunks e ≡ emit_all name accepts (collect buffer chunks) e
  unfolding consume collect
  consume-eq buffer [] e h = unfold emit_all in refl
  consume-eq buffer (c ∷ cs) e h =
      let d = drain (crlf (buffer ++ c)) in
      let now = emit_all name accepts d.0 e in
      elim (Bool-cases now.threw) [
        | inl threw ↦
            rw (threw, consume)
              (sym (
                emit_all-append d.0 (collect d.1 cs) e ∙ emit_all-threw (collect d.1 cs) now threw))
        | inr going ↦
            rw (going, consume)
              (consume-eq d.1 cs now going ∙ sym (emit_all-append d.0 (collect d.1 cs) e))
      ]

-- A stream in which no CR follows another one: the events that are emitted, and whether reading ends
-- with a throw, are those of the whole text read in one piece, however it is cut into chunks; also
-- where a chunk ends between a CR and its LF.
pub consume_sse-join :
    (name : CodePoints) (accepts : Message → Bool) (chunks : List CodePoints)
    → NoDoubleCr (join chunks)
    → consume_sse name accepts chunks ≡ consume_sse name accepts (join chunks ∷ [])
unfolding consume_sse
consume_sse-join name accepts chunks h =
    let e : Emitted = record { messages = []; threw = false } in
    let nothing : cut (crlf []) ≡ none = unfold crlf cut in refl in
    let whole = append-nil (join chunks) in
    consume-eq name accepts [] chunks e refl
    ∙ ap (λ fs. emit_all name accepts fs e)
        (collect-eq [] chunks h nothing
          ∙ ap (λ t. (drain (crlf t)).0) (sym whole)
          ∙ sym (collect-eq [] (join chunks ∷ []) (subst NoDoubleCr (sym whole) h) nothing))
    ∙ sym (consume-eq name accepts [] (join chunks ∷ []) e refl)
