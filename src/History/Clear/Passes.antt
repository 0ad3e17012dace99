-- ===== src/History/Clear/Passes.antt =====
-- `clear_terminal` of qtask_list/history.py is one pass over the index, whatever its batches.
use mathlib.Core.Option.{Option, some}
use mathlib.Core.List.{append_assoc}
use stockev_qtask_list.Base.{
  ℕ, zero, suc, ◌+◌, ◌-◌, ◌<◌, String, Bool, ◌≡◌, refl, sym, ap, ◌∙◌, subst, arith, List, [], ◌∷◌,
  ◌++◌, take, drop, take-drop, length, length-append, Bool-cases, inl, inr,
}
use stockev_qtask_list.History.Clear.{History, Shelf, clear_batch, clear_loop, clear_terminal}
use stockev_qtask_list.History.Clear.Turns.{IsSetOf, stays_at, staying, AllReadable}
use stockev_qtask_list.History.Clear.Rounds.{
  holds-append, IsSetOf-middle, IsSetOf-apart, staying-append, AllReadable-append, IsUntouched,
  batch,
}

IsSetOf-suffix : (xs ys : List String) → IsSetOf (xs ++ ys) → IsSetOf ys
IsSetOf-suffix [] ys h = h
IsSetOf-suffix (x ∷ xs) ys (h, hs) = IsSetOf-suffix xs ys hs

module _ (has_message : String → Bool) (rs : String → Option History) where
  IsSetOf-staying :
      (pre ids post : List String)
      → IsSetOf (pre ++ (ids ++ post))
      → IsSetOf (pre ++ (staying has_message rs ids ++ post))
  unfolding staying
  IsSetOf-staying pre [] post h = h
  IsSetOf-staying pre (k ∷ ks) post h = elim (Bool-cases (stays_at has_message rs k)) [
    | inl stay ↦ rw stay (
        subst IsSetOf (append_assoc pre (k ∷ []) (staying has_message rs ks ++ post)) (
          IsSetOf-staying (pre ++ k ∷ []) ks post
            (subst IsSetOf (sym (append_assoc pre (k ∷ []) (ks ++ post))) h)))
    | inr goes ↦ rw goes (IsSetOf-staying pre ks post (IsSetOf-middle k pre (ks ++ post) h).2)
  ]

  drop-length : (xs ys : List String) → drop (length xs) (xs ++ ys) ≡ ys
  unfolding drop
  drop-length [] ys = refl
  drop-length (x ∷ xs) ys = drop-length xs ys

  -- What the rounds from an offset on come to.
  record Pass (fuel offset removed : ℕ) (pre rest : List String) (s : Shelf) : Type 0 where
    pub gone : ℕ
    pub end : Shelf
    pub ran : clear_loop has_message fuel offset removed s ≡ some (removed + gone, end)
    pub left : end.members ≡ pre ++ staying has_message rs rest
    pub counted : gone + length (staying has_message rs rest) ≡ length rest

  take-cons : (n : ℕ) (x : String) (xs : List String) → take (suc n) (x ∷ xs) ≡ x ∷ take n xs
  unfolding take
  take-cons n x xs = refl

  clear_loop-next :
      (fuel offset removed : ℕ) (k : String) (ids : List String) (n : ℕ) (s u : Shelf)
      → take 500 (drop offset s.members) ≡ k ∷ ids
      → clear_batch has_message (k ∷ ids) s ≡ some (n, u)
      → clear_loop has_message (suc fuel) offset removed s
        ≡ clear_loop has_message fuel (offset + (length (k ∷ ids) - n)) (removed + n) u
  unfolding clear_loop
  clear_loop-next fuel offset removed k ids n s u e f = ground arith

  Pass-nil :
      (fuel offset removed : ℕ) (pre : List String) (s : Shelf)
      → s.members ≡ pre ++ []
      → length pre ≡ offset
      → Pass (suc fuel) offset removed pre [] s
  unfolding clear_loop take staying
  Pass-nil fuel offset removed pre s e o =
      let at : drop offset s.members ≡ [] = ground (arith, e, o, drop-length pre []) in
      record { gone = 0; end = s; ran = ground (arith, at); left = e; counted = refl }

  pass :
      (fuel offset removed : ℕ) (pre rest : List String) (s : Shelf)
      → s.members ≡ pre ++ rest
      → length pre ≡ offset
      → length rest < fuel
      → IsSetOf (pre ++ rest)
      → IsUntouched has_message rs s rest
      → AllReadable has_message rs rest
      → Pass fuel offset removed pre rest s
  pass zero offset removed pre rest s e o lt set same readable = absurd (omega arith)
  pass (suc fuel) offset removed pre [] s e o lt set same readable =
      Pass-nil fuel offset removed pre s e o
  pass (suc fuel) offset removed pre (k ∷ ks) s e o lt set same readable =
      let ids = k ∷ take 499 ks in
      let more = drop 499 ks in
      let split : k ∷ ks ≡ ids ++ more = ap (λ z. k ∷ z) (sym (take-drop 499 ks)) in
      let all : IsSetOf (pre ++ (ids ++ more)) = subst (λ z. IsSetOf (pre ++ z)) split set in
      let (r, r_more) =
        AllReadable-append has_message rs ids more
          (subst (AllReadable has_message rs) split readable) in
      let b =
        batch has_message rs ids pre more s (e ∙ ap (λ z. pre ++ z) split) all
          (λ j h. same j (ground (arith, split, h, holds-append j ids more))) r in
      let kept = staying has_message rs ids in
      let q =
        pass fuel (offset + (length ids - b.gone)) (removed + b.gone) (pre ++ kept) more b.end
          (b.left ∙ sym (append_assoc pre kept more))
          (omega (arith, length-append pre kept, b.counted))
          (omega (arith, ap (λ z. length z) split, length-append ids more))
          (subst IsSetOf (sym (append_assoc pre kept more)) (IsSetOf-staying pre ids more all))
          (λ j h.
            b.others j (IsSetOf-apart j ids more (IsSetOf-suffix pre (ids ++ more) all) h)
            ∙ same j (ground (arith, split, h, holds-append j ids more)))
          r_more in
      let at : drop offset s.members ≡ k ∷ ks =
        ap (λ z. drop offset z) e
        ∙ ap (λ z. drop z (pre ++ k ∷ ks)) (sym o)
        ∙ drop-length pre (k ∷ ks) in
      record {
        gone = b.gone + q.gone;
        end = q.end;
        ran =
            clear_loop-next fuel offset removed k (take 499 ks) b.gone s b.end
              (ap (take 500) at ∙ take-cons 499 k ks) b.ran
            ∙ q.ran
            ∙ ap (λ z. some (z, q.end)) (omega arith);
        left =
            q.left
            ∙ append_assoc pre kept (staying has_message rs more)
            ∙ ap (λ z. pre ++ z) (sym (staying-append has_message rs ids more))
            ∙ ap (λ z. pre ++ staying has_message rs z) (sym split);
        counted = omega (
          arith,
          b.counted,
          q.counted,
          ap (λ z. length z) split,
          ap (λ z. length (staying has_message rs z)) split,
          ap (λ z. length z) (staying-append has_message rs ids more),
          length-append ids more,
          length-append kept (staying has_message rs more),
        );
      }

-- Where no member's record is a text that is no JSON object, the method ends, and what it leaves in
-- the index is what one pass over it leaves: the members whose task has not ended or has a
-- message left, in their order. It answers the number of the others.
pub clear_terminal-staying :
    (has_message : String → Bool) (s : Shelf)
    → IsSetOf s.members
    → AllReadable has_message s.records s.members
    → (n : ℕ) × (u : Shelf) × (clear_terminal has_message s ≡ some (n, u))
      × (u.members ≡ staying has_message s.records s.members)
      × (n + length (staying has_message s.records s.members) ≡ length s.members)
unfolding clear_terminal
clear_terminal-staying has_message s set readable = answered (
    pass has_message s.records (suc (length s.members)) 0 0 [] s.members s refl refl (omega arith)
      set (λ j h. refl) readable)
  where
    answered :
        Pass has_message s.records (suc (length s.members)) 0 0 [] s.members s
        → (n : ℕ) × (u : Shelf) × (clear_loop has_message (suc (length s.members)) 0 0 s
            ≡ some (n, u))
          × (u.members ≡ staying has_message s.records s.members)
          × (n + length (staying has_message s.records s.members) ≡ length s.members)
    answered p = (p.gone, p.end, p.ran ∙ ap (λ z. some (z, p.end)) (omega arith), p.left, p.counted)
