-- ===== src/History/Clear/Rounds.antt =====
-- One batch of `clear_terminal` in qtask_list/history.py.
use mathlib.Core.Option.{Option, some}
use mathlib.Core.List.{append_assoc}
use stockev_qtask_list.Base.{
  ℕ, suc, ◌+◌, String, Bool, true, false, ◌||◌, ◌≡◌, refl, sym, ◌∙◌, subst, arith, List, [], ◌∷◌,
  ◌++◌, length, Bool-cases, inl, inr,
}
use stockev_qtask_list.History.Clear.{History, Shelf, clear_batch}
use stockev_qtask_list.History.Clear.Turns.{holds, IsSetOf, stays_at, staying, AllReadable, turn}

pub holds-append :
    (k : String) (xs ys : List String) → holds k (xs ++ ys) ≡ (holds k xs || holds k ys)
holds-append k [] ys = refl
holds-append k (x ∷ xs) ys = ground (arith, holds-append k xs ys)

pub IsSetOf-middle :
    (k : String) (pre post : List String)
    → IsSetOf (pre ++ k ∷ post)
    → (holds k pre ≡ false) × (holds k post ≡ false) × IsSetOf (pre ++ post)
IsSetOf-middle k [] post (h, hs) = (refl, h, hs)
IsSetOf-middle k (j ∷ pre) post (h, hs) =
    let (a, b, c) = IsSetOf-middle k pre post hs in
    (
      ground (arith, a, h, holds-append j pre (k ∷ post)),
      b,
      (ground (arith, h, holds-append j pre (k ∷ post), holds-append j pre post), c),
    )

pub IsSetOf-apart :
    (j : String) (xs ys : List String) → IsSetOf (xs ++ ys) → holds j ys ≡ true → holds j xs ≡ false
IsSetOf-apart j [] ys h e = refl
IsSetOf-apart j (x ∷ xs) ys (h, hs) e =
    ground (arith, IsSetOf-apart j xs ys hs e, holds-append x xs ys)

module _ (has_message : String → Bool) (rs : String → Option History) where
  pub staying-append :
      (xs ys : List String)
      → staying has_message rs (xs ++ ys) ≡ staying has_message rs xs ++ staying has_message rs ys
  unfolding staying
  staying-append [] ys = refl
  staying-append (x ∷ xs) ys = ground (arith, staying-append xs ys)

  pub AllReadable-append :
      (xs ys : List String)
      → AllReadable has_message rs (xs ++ ys)
      → AllReadable has_message rs xs × AllReadable has_message rs ys
  AllReadable-append [] ys h = (tt, h)
  AllReadable-append (x ∷ xs) ys (h, hs) = let (a, b) = AllReadable-append xs ys hs in ((h, a), b)

  -- The records of the members that are still to come are the first ones.
  abbrev pub IsUntouched : Shelf → List String → Type 0
  IsUntouched s ids = (j : String) → holds j ids ≡ true → s.records j ≡ rs j

  pub record Round (pre ids post : List String) (s : Shelf) : Type 0 where
    pub gone : ℕ
    pub end : Shelf
    pub ran : clear_batch has_message ids s ≡ some (gone, end)
    pub left : end.members ≡ pre ++ (staying has_message rs ids ++ post)
    pub counted : gone + length (staying has_message rs ids) ≡ length ids
    pub others : (j : String) → holds j ids ≡ false → end.records j ≡ s.records j

  pub batch :
      (ids pre post : List String) (s : Shelf)
      → s.members ≡ pre ++ (ids ++ post)
      → IsSetOf (pre ++ (ids ++ post))
      → IsUntouched s ids
      → AllReadable has_message rs ids
      → Round pre ids post s
  unfolding clear_batch staying
  batch [] pre post s e set same readable = record {
    gone = 0;
    end = s;
    ran = refl;
    left = e;
    counted = refl;
    others = λ j h. refl;
  }
  batch (k ∷ ks) pre post s e set same (r, readable) =
      let (before, after, rest) = IsSetOf-middle k pre (ks ++ post) set in
      let first : s.records k ≡ rs k = same k (ground arith) in
      let t = turn has_message k pre (ks ++ post) s e before (ground (arith, first, r)) in
      let later : IsUntouched t.end ks = λ j h.
        t.others j (λ q. ground (arith, q, h, after, holds-append k ks post))
        ∙ same j (ground (arith, h)) in
      elim (Bool-cases (stays_at has_message rs k)) [
        | inl stay ↦
            let there : t.end.members ≡ (pre ++ k ∷ []) ++ (ks ++ post) =
              ground (arith, t.left, first, stay) ∙ sym (append_assoc pre (k ∷ []) (ks ++ post)) in
            let b =
              batch ks (pre ++ k ∷ []) post t.end there
                (subst IsSetOf (sym (append_assoc pre (k ∷ []) (ks ++ post))) set) later readable in
            record {
              gone = b.gone;
              end = b.end;
              ran = ground (arith, t.turned, t.counted, first, stay, b.ran);
              left =
                  b.left
                  ∙ append_assoc pre (k ∷ []) (staying has_message rs ks ++ post)
                  ∙ ground (arith, stay);
              counted = ground (arith, stay, b.counted);
              others = λ j h. b.others j (ground arith) ∙ t.others j (ground arith);
            }
        | inr goes ↦
            let b =
              batch ks pre post t.end (ground (arith, t.left, first, goes)) rest later readable in
            record {
              gone = suc b.gone;
              end = b.end;
              ran = ground (arith, t.turned, t.counted, first, goes, b.ran);
              left = b.left ∙ ground (arith, goes);
              counted = ground (arith, goes, b.counted);
              others = λ j h. b.others j (ground arith) ∙ t.others j (ground arith);
            }
      ]
