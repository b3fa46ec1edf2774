-- ===== src/Circular.antt =====
-- internal/circular/queue.go: the bounded queue over a circular array. Indices are int values that
-- never go below 0. An index out of range is a panic, `none`. A `range` loop over a returned
-- iterator is a call with the loop's body: a function that takes the loop's own state and an
-- element, and answers its new state and whether it wants more.
pub mod Represents
pub mod Laws
pub mod Compacting
pub mod Delete
pub mod Runs
mod Tests
use clickhouse_go.Common.{
  ℕ, zero, suc, ◌+◌, ◌-◌, Bool, true, false, not, ◌||◌, List, [], ◌∷◌, Option, none, some, ltb, leb,
  ◌==◌, if◌then◌else◌, ◌>>=◌, length, get_elem?, set, replicate,
}

-- `data` is named `slots`; `zero` of the source is the parameter `blank`.
pub record Queue {ℓ} (A : Type ℓ) : Type ℓ where
  pub slots : List A
  pub head : ℕ
  pub tail : ℕ
  pub len : ℕ

-- What the body of a `range` loop does with an element.
abbrev pub Yield {ℓ κ} : Type ℓ → Type κ → Type (ℓ ⊔ κ)
Yield A S = S → A → S × Bool

-- next, over the capacity.
unfoldable pub next : ℕ → ℕ → ℕ
next capacity index = if leb capacity (index + 1) then 0 else index + 1

module _ {ℓ} {A : Type ℓ} where
  -- data[i] = v, with the bounds check.
  unfoldable pub store : List A → ℕ → A → Option (List A)
  store xs i v = if ltb i (length xs) then some (set xs i v) else none

  unfoldable pub size : Queue A → ℕ
  size q = q.len

  unfoldable pub cap_of : Queue A → ℕ
  cap_of q = length q.slots

  unfoldable pub is_full : Queue A → Bool
  is_full q = q.len == length q.slots

  unfoldable pub is_empty : Queue A → Bool
  is_empty q = q.len == 0

  unfoldable pub push : Queue A → A → Option (Queue A × Bool)
  unfolding is_full store next
  push q value = if is_full q then some (q, false) else do
    slots ← store q.slots q.tail value
    some (record q { slots = slots; tail = next (length q.slots) q.tail; len = q.len + 1 }, true)

module _ {ℓ} {A : Type ℓ} (blank : A) where
  unfoldable pub new : ℕ → Queue A
  new capacity = record { slots = replicate capacity blank; head = 0; tail = 0; len = 0 }

  -- The answer holds the element, or `none` for `ok == false`.
  unfoldable pub pull : Queue A → Option (Queue A × Option A)
  unfolding is_empty store next
  pull q = if is_empty q then some (q, none) else do
    value ← get_elem? q.slots q.head
    slots ← store q.slots q.head blank
    some (
      record q { slots = slots; head = next (length q.slots) q.head; len = q.len - 1 },
      some value,
    )

module _ {ℓ κ} {A : Type ℓ} {S : Type κ} (yield : Yield A S) where
  -- `stopYielding = stopYielding || !yield(value)`: once it is set, nothing more is yielded.
  unfoldable pub offer : Bool → S → A → S × Bool
  offer true s value = (s, true)
  offer false s value = let (s', more) = yield s value in (s', not more)

module _ {ℓ κ} {A : Type ℓ} {S : Type κ} (yield : S → ℕ → A → S × Bool) where
  -- The loop of `all`: it ends when the consumer wants no more.
  unfoldable pub all_loop : List A → ℕ → ℕ → ℕ → S → Option S
  unfolding next
  all_loop slots zero idx current s = some s
  all_loop slots (suc rounds) idx current s = do
    value ← get_elem? slots current
    let (s', more) = yield s idx value
    let rest = all_loop slots rounds (idx + 1) (next (length slots) current) s'
    if more then rest else some s'

  unfoldable pub all : Queue A → S → Option S
  unfolding is_empty all_loop
  all q s = if is_empty q then some s else all_loop q.slots q.len 0 q.head s

-- The variables of the loop of DeleteFunc, with the state of the consuming loop.
pub record Deleting {ℓ κ} (A : Type ℓ) (S : Type κ) : Type (ℓ ⊔ κ) where
  pub slots : List A
  pub new_tail : ℕ
  pub current : ℕ
  pub stop_yielding : Bool
  pub new_len : ℕ
  pub consumer : S

module _ {ℓ κ} {A : Type ℓ} {S : Type κ} (blank : A) (should_remove : A → Bool)
    (yield : Yield A S) where
  -- An element that stays moves to `new_tail` if it is not there.
  unfoldable pub keep_element : Deleting A S → A → Option (Deleting A S)
  unfolding store next
  keep_element d value = do
    slots ←
        (if not (d.current == d.new_tail)
          then (do moved ← store d.slots d.new_tail value; store moved d.current blank)
          else some d.slots)
    some (record d {
      slots = slots;
      new_tail = next (length d.slots) d.new_tail;
      current = next (length d.slots) d.current;
      new_len = d.new_len + 1;
    })

  unfoldable pub remove_element : Deleting A S → A → Option (Deleting A S)
  unfolding store next offer
  remove_element d value = do
    slots ← store d.slots d.current blank
    let (s, stop) = offer yield d.stop_yielding d.consumer value
    some (record d {
      slots = slots;
      current = next (length d.slots) d.current;
      stop_yielding = stop;
      consumer = s;
    })

  unfoldable pub delete_loop : ℕ → Deleting A S → Option (Deleting A S)
  unfolding keep_element remove_element
  delete_loop zero d = some d
  delete_loop (suc rounds) d = do
    value ← get_elem? d.slots d.current
    d' ← (if not (should_remove value) then keep_element d value else remove_element d value)
    delete_loop rounds d'

  unfoldable pub delete_func : Queue A → S → Option (Queue A × S)
  unfolding is_empty delete_loop
  delete_func q s = if is_empty q then some (q, s) else do
    d ← delete_loop q.len (record {
      slots = q.slots;
      new_tail = q.head;
      current = q.head;
      stop_yielding = false;
      new_len = 0;
      consumer = s;
    })
    some (record q { slots = d.slots; tail = d.new_tail; len = d.new_len }, d.consumer)

module _ {ℓ κ} {A : Type ℓ} {S : Type κ} (blank : A) (yield : Yield A S) where
  -- The loop of Clear: the slots and the consumer's state that it ends with.
  unfoldable pub clear_loop : ℕ → List A → ℕ → Bool → S → Option (List A × S)
  unfolding store next offer
  clear_loop zero slots current stop s = some (slots, s)
  clear_loop (suc rounds) slots current stop s = do
    value ← get_elem? slots current
    slots' ← store slots current blank
    let (s', stop') = offer yield stop s value
    clear_loop rounds slots' (next (length slots) current) stop' s'

  unfoldable pub clear : Queue A → S → Option (Queue A × S)
  unfolding is_empty clear_loop
  clear q s = if is_empty q then some (q, s) else do
    (slots, s') ← clear_loop q.len q.slots q.head false s
    some (record { slots = slots; head = 0; tail = 0; len = 0 }, s')
