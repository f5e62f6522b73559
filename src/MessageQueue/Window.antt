-- ===== src/MessageQueue/Window.antt =====
-- The abstract view of a header (ipc/message_queue.hpp): the payloads it holds, newest first, and
-- the invariant under which the circular index stands for that list.
use native.Mathlib.Nat.{mod-add-mod}
use native.Mathlib.Decide.{dec_lt}
use boat.Prelude.{
  ℕ, zero, suc, ◌+◌, ◌-◌, ◌%◌, ◌^◌, ◌≤◌, ◌<◌, min, ◌≡◌, refl, ap, ap₂, ◌∙◌, ◌≢◌, List, [], ◌∷◌,
  length, get_or, take, arith, mod_cases,
}
use boat.MessageQueue.{Message, Header, slot, update, end_index}

pub record IsValid (h : Header) : Type 0 where
  pub nonempty : 0 < h.max_num_msg
  pub small : h.max_num_msg < 2 ^ 63
  pub pointers : length h.index ≡ h.max_num_msg
  pub count_in : h.cur_num_msg ≤ h.max_num_msg
  pub first_in : h.cur_first_msg < h.max_num_msg
  pub distinct : (i j : ℕ) → i < j → j < h.max_num_msg → slot h i ≢ slot h j
  pub whole : (a : ℕ) → (h.memory a).len ≤ length (h.memory a).bytes

abbrev pub payload : Message → List ℕ
payload m = take m.len m.bytes

-- The `n` payloads from position `p` of the index on, going round at `size`.
module _ (memory : ℕ → Message) (index : List ℕ) (size : ℕ) where
  abbrev pub window : ℕ → ℕ → List (List ℕ)
  window p zero = []
  window p (suc n) = payload (memory (get_or index p 0)) ∷ window ((p + 1) % size) n

  pub length-window : (p n : ℕ) → length (window p n) ≡ n
  length-window p zero = refl
  length-window p (suc n) = ap suc (length-window ((p + 1) % size) n)

  pub take-window : (k p n : ℕ) → take k (window p n) ≡ window p (min k n)
  take-window zero p n = rw min_zero
    where
      min_zero : min 0 n ≡ 0
      min_zero = omega arith
  take-window (suc k) p zero = rw min_right
    where
      min_right : min (suc k) 0 ≡ 0
      min_right = omega arith
  take-window (suc k) p (suc n) = rw (take-window k ((p + 1) % size) n, min_suc)
    where
      min_suc : min (suc k) (suc n) ≡ suc (min k n)
      min_suc = omega arith

  pub get_or-window :
      (k p n : ℕ)
      → p < size
      → k < n
      → get_or (window p n) k [] ≡ payload (memory (get_or index ((p + k) % size) 0))
  get_or-window k p zero hp h = absurd (omega arith)
  get_or-window zero p (suc n) hp h =
      let e : (p + 0) % size ≡ p = omega (arith, mod_cases (p + 0) size (omega arith)) in rw e
  get_or-window (suc k) p (suc n) hp h =
      get_or-window k ((p + 1) % size) n (omega arith) (omega arith)
      ∙ ap (λ q. payload (memory (get_or index q 0))) shift
    where
      shift : ((p + 1) % size + k) % size ≡ (p + suc k) % size
      shift = rw mod-add-mod (ap (λ t. t % size) (omega arith))

pub get_or-window_zero :
    (memory : ℕ → Message) (index : List ℕ) (size p n : ℕ)
    → 0 < n
    → get_or (window memory index size p n) 0 [] ≡ payload (memory (get_or index p 0))
get_or-window_zero memory index size p zero h = absurd (omega arith)
get_or-window_zero memory index size p (suc n) h = refl

-- The view of a header.
abbrev pub contents : Header → List (List ℕ)
contents h = window h.memory h.index h.max_num_msg h.cur_first_msg h.cur_num_msg

pub length-contents : (h : Header) → length (contents h) ≡ h.cur_num_msg
length-contents h = length-window h.memory h.index h.max_num_msg h.cur_first_msg h.cur_num_msg

-- Fewer than `size` steps round the index do not come back to the start.
pub add-mod-ne : (size p k : ℕ) → p < size → 0 < k → k < size → (p + k) % size ≢ p
add-mod-ne size p k hp k0 hk = omega (arith, mod_cases (p + k) size (omega arith))

-- A write under a position that the window does not reach leaves it as it is.
pub window-update :
    (memory : ℕ → Message) (index : List ℕ) (size a q : ℕ) (m : Message)
    → a ≡ get_or index q 0
    → q < size
    → ((i : ℕ) → i < size → i ≢ q → get_or index i 0 ≢ get_or index q 0)
    → (p n k : ℕ) → p ≡ (q + k) % size
    → 0 < k
    → k + n ≤ size
    → window (update memory a m) index size p n ≡ window memory index size p n
window-update memory index size a q m ea hq apart p zero k ep k0 hk = refl
window-update memory index size a q m ea hq apart p (suc n) k ep k0 hk = ap₂ ◌∷◌ here (
    window-update memory index size a q m ea hq apart ((p + 1) % size) n (suc k) step (omega arith)
      (omega arith))
  where
    step : (p + 1) % size ≡ (q + suc k) % size
    step = rw (ep, mod-add-mod) (ap (λ t. t % size) (omega arith))

    away : get_or index p 0 ≢ a
    away = rw ea (apart p (rw ep (omega arith)) (rw ep (add-mod-ne size q k hq k0 (omega arith))))

    here : payload (update memory a m (get_or index p 0)) ≡ payload (memory (get_or index p 0))
    here = ground (arith, away)

-- In a valid header no two positions share a message.
pub slot-ne :
    {h : Header}
    → IsValid h
    → (i q : ℕ) → i < h.max_num_msg
    → q < h.max_num_msg
    → i ≢ q
    → slot h i ≢ slot h q
slot-ne {h} v i q hi hq ne = elim (dec_lt i q) [
  | yes l ↦ v.distinct i q l hq
  | no l ↦ λ e. v.distinct q i (omega arith) hi (cc)
]

-- The position of the oldest message.
pub end_index_lem :
    {h : Header}
    → IsValid h
    → 0 < h.cur_num_msg
    → end_index h ≡ (h.cur_first_msg + (h.cur_num_msg - 1)) % h.max_num_msg
end_index_lem {h} v n =
    ground (
      arith,
      v.small,
      mod_cases (h.cur_first_msg + (h.cur_num_msg - 1)) h.max_num_msg (omega arith),
    )
