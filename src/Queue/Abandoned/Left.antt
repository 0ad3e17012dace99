-- ===== src/Queue/Abandoned/Left.antt =====
-- What `recover_abandoned_claims` of qtask_list/queue.py leaves in the workers' lists.
use mathlib.Core.Option.{Option, none, some}
use mathlib.Core.List.{append_assoc}
use stockev_qtask_list.Base.{
  String, Bool, true, false, ◌≡◌, ◌≢◌, ◌⊎◌, refl, sym, ap, ◌∙◌, arith, List, [], ◌∷◌, ◌++◌, str_dec,
  ite, if◌then◌else◌, Bool-cases, inl, inr,
}
use stockev_qtask_list.Store.Messages.{Message, msg_dec}
use stockev_qtask_list.Store.{
  Store, lrem, take_claimed, put_task, add_deadline, release_lease, count,
}
use stockev_qtask_list.Queue.Claim.{move_poison, poison_record, fail_record}
use stockev_qtask_list.Queue.Abandoned.{
  Header, return_abandoned, replace_abandoned, recover_claim, is_protected, recover_message,
  claims_of, recover_each, recover_abandoned,
}

-- The entries of other workers, and the worker's own that are held.
unfoldable pub remaining : String → List Message → List (String × Message) → List (String × Message)
remaining w held [] = []
remaining w held ((v, m) ∷ ps) =
    let rest = remaining w held ps in
    ite (str_dec w v) (if is_protected m held then (v, m) ∷ rest else rest) ((v, m) ∷ rest)

poison_record-processing :
    (id : Option String) (code : String) (s : Store)
    → (poison_record id code s).processing ≡ s.processing
unfolding poison_record fail_record put_task
poison_record-processing none code s = refl
poison_record-processing (some id) code s = ground arith

replace_abandoned-processing :
    (unspent : Bool) (h : Header) (m : Message) (s : Store)
    → (replace_abandoned unspent h m s).processing ≡ s.processing
unfolding replace_abandoned return_abandoned put_task add_deadline
replace_abandoned-processing unspent h m s = ground arith

module _ (w : String) (held : List Message) where
  -- No entry is one that the recovery would take.
  abbrev AllLeft : List (String × Message) → Type 0
  AllLeft [] = Unit {0}
  AllLeft ((v, m) ∷ ps) = ((w ≢ v) ⊎ (is_protected m held ≡ true)) × AllLeft ps

  AllLeft-append :
      (ps : List (String × Message)) (v : String) (m : Message)
      → AllLeft ps
      → (w ≢ v) ⊎ (is_protected m held ≡ true)
      → AllLeft (ps ++ (v, m) ∷ [])
  AllLeft-append [] v m left one = (one, tt)
  AllLeft-append (p ∷ ps) v m (here, left) one = (here, AllLeft-append ps v m left one)

  module _ (m : Message) (free : is_protected m held ≡ false) where
    lrem-left :
        (ps qs : List (String × Message))
        → AllLeft ps
        → lrem w m (ps ++ (w, m) ∷ qs) ≡ some (ps ++ qs)
    unfolding lrem
    lrem-left [] qs left = ground arith
    lrem-left ((v, x) ∷ ps) qs (here, left) = elim (str_dec w v) [
      | no other ↦ ground (arith, lrem-left ps qs left)
      | yes own ↦ elim (msg_dec m x) [
        | no other ↦ ground (arith, lrem-left ps qs left)
        | yes same ↦ absurd (protected here own same)
      ]
    ]
      where
        protected : (w ≢ v) ⊎ (is_protected x held ≡ true) → w ≡ v → m ≡ x → ⊥
        protected (inl other) own same = other own
        protected (inr kept) own same =
            ground (arith, ap (λ (z : Message). is_protected z held) same)

    take_claimed-left :
        (ps qs : List (String × Message)) (s : Store)
        → AllLeft ps
        → s.processing ≡ ps ++ (w, m) ∷ qs
        → take_claimed w m s ≡ some (record s { processing = ps ++ qs })
    unfolding take_claimed
    take_claimed-left ps qs s left e = rw (e, lrem-left ps qs left) refl

    recover_message-takes :
        (ps qs : List (String × Message)) (spent : List String) (s : Store)
        → AllLeft ps
        → s.processing ≡ ps ++ (w, m) ∷ qs
        → (recover_message w held spent m s).1.processing ≡ ps ++ qs
    unfolding recover_message recover_claim move_poison count release_lease
    recover_message-takes ps qs spent s left e = grind (
      arith,
      take_claimed-left ps qs s left e,
      poison_record-processing,
      replace_abandoned-processing,
    )

  recover_message-protected :
      (m : Message) (spent : List String) (s : Store)
      → is_protected m held ≡ true
      → recover_message w held spent m s ≡ (0, s)
  unfolding recover_message
  recover_message-protected m spent s kept = ground arith

  recover_each-remaining :
      (ps qs : List (String × Message)) (spent : List String) (s : Store)
      → AllLeft ps
      → s.processing ≡ ps ++ qs
      → (recover_each w held spent (claims_of w qs) s).1.processing ≡ ps ++ remaining w held qs
  unfolding recover_each claims_of remaining
  recover_each-remaining ps [] spent s left e = e
  recover_each-remaining ps ((v, m) ∷ qs) spent s left e =
      let kept = λ (one : (w ≢ v) ⊎ (is_protected m held ≡ true)).
        recover_each-remaining (ps ++ (v, m) ∷ []) qs spent s (AllLeft-append ps v m left one)
          (e ∙ sym (append_assoc ps ((v, m) ∷ []) qs))
        ∙ append_assoc ps ((v, m) ∷ []) (remaining w held qs) in
      elim (str_dec w v) [
        | no other ↦ ground (arith, kept (inl other))
        | yes own ↦ elim (Bool-cases (is_protected m held)) [
          | inl b ↦ ground (arith, recover_message-protected m spent s b, kept (inr b))
          | inr b ↦
              let u = (recover_message w held spent m s).1 in
              ground (
                arith,
                recover_each-remaining ps qs spent u left (
                    recover_message-takes m b ps qs spent s left
                      (e ∙ ap (λ z. ps ++ (z, m) ∷ qs) (sym own))),
              )
        ]
      ]

-- A recovery of abandoned claims takes every message out of the worker's own list that is not
-- among the held ones, and leaves the held ones and the lists of all other workers as they
-- were, order included.
pub recover_abandoned-remaining :
    (w : String) (held : List Message) (spent : List String) (s : Store)
    → (recover_abandoned w held spent s).1.processing ≡ remaining w held s.processing
unfolding recover_abandoned
recover_abandoned-remaining w held spent s =
    recover_each-remaining w held [] s.processing spent s tt refl
