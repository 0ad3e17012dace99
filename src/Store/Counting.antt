-- ===== src/Store/Counting.antt =====
-- How many messages of a task stand in a list or set, under the Redis commands of the scripts.
use mathlib.Core.Option.{Option, none, some}
use stockev_qtask_list.Base.{
  ℕ, ◌+◌, ◌≤◌, String, ◌≡◌, ◌≢◌, refl, List, [], ◌∷◌, ◌++◌, arith, ite, str_dec, remove_one,
  pop_last,
}
use stockev_qtask_list.Store.Messages.{Message, message_task_id, msg_dec}
use stockev_qtask_list.Store.{insert_scored, without, zadd, zrem, lrem, pop_claimed}

abbrev same_task : Option String → String → ℕ
same_task none j = 0
same_task (some i) j = ite (str_dec i j) 1 0

-- 1 if the message is one of the task's.
abbrev pub carries : String → Message → ℕ
carries j m = same_task (message_task_id m) j

abbrev pub count_list : String → List Message → ℕ
count_list j [] = 0
count_list j (m ∷ ms) = carries j m + count_list j ms

abbrev pub count_delay : String → List (ℕ × Message) → ℕ
count_delay j [] = 0
count_delay j ((d, m) ∷ zs) = carries j m + count_delay j zs

abbrev pub count_claimed : String → List (String × Message) → ℕ
count_claimed j [] = 0
count_claimed j ((w, m) ∷ ps) = carries j m + count_claimed j ps

pub count_list-append :
    (j : String) (xs ys : List Message)
    → count_list j (xs ++ ys) ≡ count_list j xs + count_list j ys
count_list-append j [] ys = omega arith
count_list-append j (x ∷ xs) ys = omega (arith, count_list-append j xs ys)

-- The number `n` splits as `f` says, if something was taken.
abbrev pub Took {ℓ} : {A : Type ℓ} → (A → ℕ) → ℕ → Option A → Type 0
Took f n none = Unit
Took f n (some a) = n ≡ f a

pub remove_one-count :
    (j : String) (m : Message) (xs : List Message)
    → Took (λ ys. carries j m + count_list j ys) (count_list j xs) (remove_one msg_dec m xs)
unfolding remove_one
remove_one-count j m [] = tt
remove_one-count j m (x ∷ xs) = ground (arith, remove_one-count j m xs)

pub zrem-count :
    (j : String) (m : Message) (zs : List (ℕ × Message))
    → Took (λ ys. carries j m + count_delay j ys) (count_delay j zs) (zrem m zs)
unfolding zrem
zrem-count j m [] = tt
zrem-count j m ((d, x) ∷ zs) = ground (arith, zrem-count j m zs)

pub lrem-count :
    (j w : String) (m : Message) (ps : List (String × Message))
    → Took (λ qs. carries j m + count_claimed j qs) (count_claimed j ps) (lrem w m ps)
unfolding lrem
lrem-count j w m [] = tt
lrem-count j w m ((v, x) ∷ ps) = ground (arith, lrem-count j w m ps)

pub pop_last-count :
    (j : String) (xs : List Message)
    → Took (λ r. carries j r.0 + count_list j r.1) (count_list j xs) (pop_last xs)
unfolding pop_last
pop_last-count j [] = tt
pop_last-count j (x ∷ []) = omega arith
pop_last-count j (x ∷ y ∷ r) = ground (arith, pop_last-count j (y ∷ r))

pub pop_claimed-count :
    (j w : String) (ps : List (String × Message))
    → Took (λ r. carries j r.0 + count_claimed j r.1) (count_claimed j ps) (pop_claimed w ps)
unfolding pop_claimed
pop_claimed-count j w [] = tt
pop_claimed-count j w ((v, x) ∷ ps) = ground (arith, pop_claimed-count j w ps)

insert_scored-count :
    (j : String) (sc : ℕ) (m : Message) (zs : List (ℕ × Message))
    → count_delay j (insert_scored sc m zs) ≡ carries j m + count_delay j zs
unfolding insert_scored
insert_scored-count j sc m [] = refl
insert_scored-count j sc m ((d, x) ∷ zs) = ground (arith, insert_scored-count j sc m zs)

without-count :
    (j : String) (m : Message) (zs : List (ℕ × Message))
    → (count_delay j (without m zs) ≤ count_delay j zs)
      × (carries j m ≡ 0 → count_delay j (without m zs) ≡ count_delay j zs)
unfolding without
without-count j m [] = ground arith
without-count j m ((d, x) ∷ zs) = ground (arith, without-count j m zs)

-- A message whose task had none in the set adds one.
pub zadd-count :
    (j : String) (sc : ℕ) (m : Message) (zs : List (ℕ × Message))
    → (carries j m ≢ 0 → count_delay j zs ≡ 0)
    → count_delay j (zadd sc m zs) ≡ carries j m + count_delay j zs
unfolding zadd
zadd-count j sc m zs h =
    grind (arith, insert_scored-count j sc m (without m zs), without-count j m zs)
