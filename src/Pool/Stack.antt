-- ===== src/Pool/Stack.antt =====
-- What a pool stands for: the stack of the indices of its free buffers, the next one first.
use ixgbe82599_driver.Base.{
  ℕ, zero, suc, ◌+◌, ◌-◌, ◌^◌, ◌≤◌, ◌<◌, ◌≡◌, refl, ap, ◌∙◌, List, [], ◌∷◌, ◌++◌, some, arith,
  length, get_or, set, take, drop, map, get_elem?-eq-get_or, set?-eq-set, get_or-set_self,
  get_or-set_ne, take-set, drop-set_below, take-append-drop, length-set,
}
use mathlib.Core.List.{append_assoc}
use native.Mathlib.Nat.{add-zero}
use ixgbe82599_driver.World.{Mempool}
use ixgbe82599_driver.Pool.{buf_at, pop, push, alloc_loop}

abbrev pub stack_of : List ℕ → ℕ → List ℕ
stack_of free_stack zero = []
stack_of free_stack (suc top) = get_or free_stack top 0 ∷ stack_of free_stack top

abbrev pub stack : Mempool → List ℕ
stack m = stack_of m.free_stack m.free_stack_top

-- The top lies in the array, and the array is short enough for a uint32_t index.
pub record Fits (m : Mempool) : Type 0 where
  pub top_le : m.free_stack_top ≤ length m.free_stack
  pub small : length m.free_stack < 2 ^ 32

pub length-stack_of : (fs : List ℕ) (t : ℕ) → length (stack_of fs t) ≡ t
length-stack_of fs zero = refl
length-stack_of fs (suc t) = ap suc (length-stack_of fs t)

pub stack_of-drop : (fs : List ℕ) (k t : ℕ) → stack_of fs (t - k) ≡ drop k (stack_of fs t)
stack_of-drop fs zero t = ap (stack_of fs) {y = t} (omega arith)
stack_of-drop fs (suc k) zero = ap (stack_of fs) {y = 0} (omega arith)
stack_of-drop fs (suc k) (suc t) = ap (stack_of fs) {y = t - k} (omega arith) ∙ stack_of-drop fs k t

stack_of-set_above : (fs : List ℕ) (i v t : ℕ) → t ≤ i → stack_of (set fs i v) t ≡ stack_of fs t
stack_of-set_above fs i v zero h = refl
stack_of-set_above fs i v (suc t) h = ground (
  arith,
  get_or-set_ne fs {i = i} {j = t} v 0 (omega arith),
  stack_of-set_above fs i v t (omega arith),
)

pub stack_of-set :
    (fs : List ℕ) (t v : ℕ) → t < length fs → stack_of (set fs t v) (suc t) ≡ v ∷ stack_of fs t
stack_of-set fs t v h =
    ground (arith, get_or-set_self fs t v 0 h, stack_of-set_above fs t v t (omega arith))

pub pop_lem :
    (m : Mempool) (t : ℕ)
    → Fits m
    → m.free_stack_top ≡ suc t
    → pop m ≡ some (get_or m.free_stack t 0, record m { free_stack_top = t })
unfolding pop
pop_lem m t f e = ground (arith, get_elem?-eq-get_or m.free_stack t 0)

pub push_lem :
    (m : Mempool) (entry_id : ℕ)
    → Fits m
    → m.free_stack_top < length m.free_stack
    → push entry_id m
      ≡ some (record m {
        free_stack_top = m.free_stack_top + 1;
        free_stack = set m.free_stack m.free_stack_top entry_id;
      })
unfolding push
push_lem m entry_id f lt = ground (arith, set?-eq-set m.free_stack m.free_stack_top entry_id)

-- Writes at consecutive places of an array, from place i on.
pub fill : ℕ → List ℕ → List ℕ → List ℕ
fill i [] buf = buf
fill i (x ∷ xs) buf = fill (i + 1) xs (set buf i x)

fill_from :
    (i : ℕ) (xs buf : List ℕ)
    → i + length xs ≤ length buf
    → fill i xs buf ≡ take i buf ++ (xs ++ drop (i + length xs) buf)
unfolding fill
fill_from i [] buf h = ground (arith, take-append-drop i buf, add-zero i)
fill_from i (x ∷ xs) buf h = ground (
  arith,
  fill_from (i + 1) xs (set buf i x),
  length-set buf i x,
  take-set buf i x,
  drop-set_below i (length xs) buf x,
  append_assoc (take i buf) (x ∷ []) (xs ++ drop (i + suc (length xs)) buf),
)

pub fill-append :
    (xs buf : List ℕ) → length xs ≤ length buf → fill 0 xs buf ≡ xs ++ drop (length xs) buf
fill-append xs buf h = ground (arith, fill_from 0 xs buf)

-- The loop takes the top of the stack, buffer by buffer.
pub alloc_loop_lem :
    (rounds i : ℕ) (m : Mempool) (buf : List ℕ)
    → Fits m
    → rounds ≤ m.free_stack_top
    → i + rounds ≤ length buf
    → alloc_loop rounds i m buf
      ≡ some (
        record m { free_stack_top = m.free_stack_top - rounds },
        fill i (map (buf_at m) (take rounds (stack m))) buf,
      )
unfolding alloc_loop fill
alloc_loop_lem zero i m buf f enough room = ground arith
alloc_loop_lem (suc rounds) i m buf f enough room = ground (
  arith,
  pop_lem m t f,
  set?-eq-set buf i (buf_at m (get_or m.free_stack t 0)),
  alloc_loop_lem rounds (i + 1) (record m { free_stack_top = t })
      (set buf i (buf_at m (get_or m.free_stack t 0))),
  length-set buf i (buf_at m (get_or m.free_stack t 0)),
)
  where
    t : ℕ
    t = m.free_stack_top - 1
