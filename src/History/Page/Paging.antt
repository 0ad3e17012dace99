-- ===== src/History/Page/Paging.antt =====
-- Reading a history index page by page, as `search_tasks_page` of qtask_list/admin.py does: the
-- anchor of the next page is the last member of this one.
use mathlib.Core.Option.{Option, some}
use mathlib.Core.List.{append_assoc}
use stockev_qtask_list.Base.{
  take, ℕ, zero, suc, ◌≤◌, true, false, ◌≡◌, refl, sym, ap, ◌∙◌, subst, arith, List, [], ◌∷◌, ◌++◌,
  leb, length, inl, inr, Bool-cases,
}
use stockev_qtask_list.History.Page.{Item, byte_before, eligible, read_page}
use stockev_qtask_list.History.Page.Order.{Precedes, PrecedesAll, IsIndex}
use stockev_qtask_list.History.Page.Search.{eligible_items, eligible_items-all, read_page-eligible}

unfoldable pub last_item : Item → List Item → Item
last_item i [] = i
last_item i (j ∷ js) = last_item j js

-- `fill` again and again, with the sizes of the pages; an empty page ends it.
unfoldable pub read_pages : List ℕ → ℕ → Option Item → List Item → List Item
read_pages [] cutoff anchor is = []
read_pages (count ∷ counts) cutoff anchor is = elim (read_page cutoff anchor count is) [
  | [] ↦ []
  | i ∷ page ↦ i ∷ page ++ read_pages counts cutoff (some (last_item i page)) is
]

pub byte_before_asym : (a b : List ℕ) → byte_before a b ≡ true → byte_before b a ≡ false
unfolding byte_before
byte_before_asym [] [] h = refl
byte_before_asym [] (y ∷ b) h = refl
byte_before_asym (x ∷ a) [] h = ground arith
byte_before_asym (x ∷ a) (y ∷ b) h = ground (arith, byte_before_asym a b)

pub byte_before_irrefl : (a : List ℕ) → byte_before a a ≡ false
unfolding byte_before
byte_before_irrefl [] = refl
byte_before_irrefl (x ∷ a) = ground (arith, byte_before_irrefl a)

abbrev pub AllWithin : ℕ → List Item → Type 0
AllWithin cutoff [] = Unit {0}
AllWithin cutoff (i ∷ is) = (leb i.0 cutoff ≡ true) × AllWithin cutoff is

eligible-within :
    (cutoff : ℕ) (anchor : Option Item) (i : Item)
    → eligible cutoff anchor i ≡ true
    → leb i.0 cutoff ≡ true
unfolding eligible
eligible-within cutoff anchor i e = ground arith

pub eligible_items-AllWithin :
    (cutoff : ℕ) (anchor : Option Item) (is : List Item)
    → AllWithin cutoff (eligible_items cutoff anchor is)
unfolding eligible_items
eligible_items-AllWithin cutoff anchor [] = tt
eligible_items-AllWithin cutoff anchor (i ∷ is) =
    let rest = eligible_items-AllWithin cutoff anchor is in
    elim (Bool-cases (eligible cutoff anchor i)) [
      | inl e ↦ rw e (eligible-within cutoff anchor i e, rest)
      | inr e ↦ rw e rest
    ]

PrecedesAll-middle : (i q : Item) (xs ys : List Item) → PrecedesAll i (xs ++ q ∷ ys) → Precedes i q
PrecedesAll-middle i q [] ys (h, hs) = h
PrecedesAll-middle i q (x ∷ xs) ys (h, hs) = PrecedesAll-middle i q xs ys hs

module _ (cutoff : ℕ) (q : Item) where
  after-eligible :
      (j : Item) → Precedes q j → leb j.0 cutoff ≡ true → eligible cutoff (some q) j ≡ true
  unfolding eligible
  after-eligible j h e = ground arith

  before-refused : (i : Item) → Precedes i q → eligible cutoff (some q) i ≡ false
  unfolding eligible
  before-refused (s, a) h = ground (arith, byte_before_asym q.1 a)

  self-refused : eligible cutoff (some q) q ≡ false
  unfolding eligible
  self-refused = ground (arith, byte_before_irrefl q.1)

  -- After the anchor stands what the next pages hold.
  eligible_items-rest :
      (ys : List Item)
      → PrecedesAll q ys
      → AllWithin cutoff ys
      → eligible_items cutoff (some q) ys ≡ ys
  unfolding eligible_items
  eligible_items-rest [] h e = refl
  eligible_items-rest (y ∷ ys) (h, hs) (e, es) =
      ground (arith, after-eligible y h e, eligible_items-rest ys hs es)

  eligible_items-after :
      (xs ys : List Item)
      → IsIndex (xs ++ q ∷ ys)
      → AllWithin cutoff ys
      → eligible_items cutoff (some q) (xs ++ q ∷ ys) ≡ ys
  unfolding eligible_items
  eligible_items-after [] ys (h, hs) e = ground (arith, self-refused, eligible_items-rest ys h e)
  eligible_items-after (x ∷ xs) ys (h, hs) e =
      ground
        (arith, before-refused x (PrecedesAll-middle x q xs ys h), eligible_items-after xs ys hs e)

AllWithin-suffix :
    (cutoff : ℕ) (xs ys : List Item) → AllWithin cutoff (xs ++ ys) → AllWithin cutoff ys
AllWithin-suffix cutoff [] ys h = h
AllWithin-suffix cutoff (x ∷ xs) ys (h, hs) = AllWithin-suffix cutoff xs ys hs

-- A page and what follows it.
record Cut (i : Item) (n : ℕ) (is : List Item) : Type 0 where
  before : List Item
  after : List Item
  page : i ∷ take n is ≡ before ++ last_item i (take n is) ∷ []
  whole : i ∷ is ≡ before ++ last_item i (take n is) ∷ after
  shorter : length after ≤ length is

cut : (i : Item) (n : ℕ) (is : List Item) → Cut i n is
unfolding take last_item
cut i zero is = record { before = []; after = is; page = refl; whole = refl; shorter = omega arith }
cut i (suc n) [] = record {
  before = [];
  after = [];
  page = refl;
  whole = refl;
  shorter = omega arith;
}
cut i (suc n) (j ∷ js) =
    let c = cut j n js in
    record {
      before = i ∷ c.before;
      after = c.after;
      page = ap (λ z. i ∷ z) c.page;
      whole = ap (λ z. i ∷ z) c.whole;
      shorter = omega (arith, c.shorter);
    }

-- Every page asks for a member at least.
abbrev pub AllPositive : List ℕ → Type 0
AllPositive [] = Unit {0}
AllPositive (c ∷ cs) = (1 ≤ c) × AllPositive cs

module _ (cutoff : ℕ) (is : List Item) (sorted : IsIndex is) where
  pub rest_after :
      (pre xs ys : List Item) (q : Item)
      → is ≡ pre ++ (xs ++ q ∷ ys)
      → AllWithin cutoff (xs ++ q ∷ ys)
      → eligible_items cutoff (some q) is ≡ ys
  rest_after pre xs ys q e within =
      let split = e ∙ sym (append_assoc pre xs (q ∷ ys)) in
      ap (eligible_items cutoff (some q)) split
      ∙ eligible_items-after cutoff q (pre ++ xs) ys (subst IsIndex split sorted)
          (AllWithin-suffix cutoff xs (q ∷ ys) within).1

  read_pages-rest :
      (counts : List ℕ) (anchor : Option Item) (pre rest : List Item)
      → is ≡ pre ++ rest
      → eligible_items cutoff anchor is ≡ rest
      → length rest ≤ length counts
      → AllPositive counts
      → read_pages counts cutoff anchor is ≡ rest
  unfolding read_pages take
  read_pages-rest [] anchor pre [] e f le h = refl
  read_pages-rest [] anchor pre (i ∷ rest) e f le h = absurd (omega arith)
  read_pages-rest (zero ∷ counts) anchor pre rest e f le (h, hs) = absurd (omega arith)
  read_pages-rest (suc c ∷ counts) anchor pre [] e f le (h, hs) =
      ground (arith, read_page-eligible cutoff anchor (suc c) is sorted h)
  read_pages-rest (suc c ∷ counts) anchor pre (i ∷ rest) e f le (h, hs) =
      let k = cut i c rest in
      let q = last_item i (take c rest) in
      let there : is ≡ pre ++ (k.before ++ q ∷ k.after) = e ∙ ap (λ z. pre ++ z) k.whole in
      let within =
        subst (AllWithin cutoff) (f ∙ k.whole) (eligible_items-AllWithin cutoff anchor is) in
      let later =
        read_pages-rest counts (some q) (pre ++ (k.before ++ q ∷ [])) k.after
          (there
            ∙ ap (λ z. pre ++ z) (sym (append_assoc k.before (q ∷ []) k.after))
            ∙ sym (append_assoc pre (k.before ++ q ∷ []) k.after))
          (rest_after pre k.before k.after q there within) (omega (arith, k.shorter)) hs in
      ground (
        arith,
        read_page-eligible cutoff anchor (suc c) is sorted h,
        ap (λ z. z ++ k.after) k.page ∙ append_assoc k.before (q ∷ []) k.after,
        k.whole,
        later,
      )

-- What is eligible ends the index.
pub eligible_items-suffix :
    (cutoff : ℕ) (anchor : Option Item) (is : List Item)
    → IsIndex is
    → (pre : List Item) × (is ≡ pre ++ eligible_items cutoff anchor is)
unfolding eligible_items
eligible_items-suffix cutoff anchor [] h = ([], refl)
eligible_items-suffix cutoff anchor (i ∷ is) (h, hs) =
    elim (Bool-cases (eligible cutoff anchor i)) [
      | inl e ↦ ([], ground (arith, eligible_items-all cutoff anchor i is h e))
      | inr e ↦
          let (pre, split) = eligible_items-suffix cutoff anchor is hs in
          (i ∷ pre, ground (arith, split))
    ]

eligible_items-length :
    (cutoff : ℕ) (anchor : Option Item) (is : List Item)
    → length (eligible_items cutoff anchor is) ≤ length is
unfolding eligible_items
eligible_items-length cutoff anchor [] = ground arith
eligible_items-length cutoff anchor (i ∷ is) =
    ground (arith, eligible_items-length cutoff anchor is)

-- Reading page after page, of any sizes from one on, gives every member that is not later than
-- the cutoff and stands after the first anchor, each once and in the order of the index, when
-- as many pages are read as the index has members.
pub read_pages_complete :
    (counts : List ℕ) (cutoff : ℕ) (anchor : Option Item) (is : List Item)
    → IsIndex is
    → AllPositive counts
    → length is ≤ length counts
    → read_pages counts cutoff anchor is ≡ eligible_items cutoff anchor is
read_pages_complete counts cutoff anchor is sorted h le =
    let (pre, split) = eligible_items-suffix cutoff anchor is sorted in
    read_pages-rest cutoff is sorted counts anchor pre (eligible_items cutoff anchor is) split refl
      (omega (arith, eligible_items-length cutoff anchor is)) h
