-- ===== src/Util/Log/Roundtrip.antt =====
-- Reading a log (util/log-replay.cc) gives back what was written to it (util/logger.cc).
use native.Mathlib.Nat.{mod-eq_of_lt}
use boat.Prelude.{
  ℕ, zero, suc, ◌^◌, ◌≤◌, ◌<◌, ◌≡◌, refl, ap, ap₂, sym, ◌∙◌, List, [], ◌∷◌, ◌++◌, none, some,
  if◌then◌else◌, length, take, drop, u16, u64, Bool, true, arith, append_assoc, append-nil,
  length-append, take-append_left, drop-append_left, le→ltb, lt→ltb,
}
use boat.Prelude.Bytes.{bytes_value, to_bytes, length-to_bytes}
use boat.Util.Log.{
  max_buf, new_log, log_message, log_messages, read, read_start_time, too_long, message,
  read_log_message, read_all,
}

two_bytes : (n : ℕ) → n < 65536 → bytes_value (to_bytes 2 n) ≡ n
unfolding to_bytes bytes_value
two_bytes n h = omega arith

eight_bytes : (n : ℕ) → n < 2 ^ 64 → bytes_value (to_bytes 8 n) ≡ n
unfolding to_bytes bytes_value
eight_bytes n h = omega arith

read-append : (xs ys : List ℕ) (n : ℕ) → length xs ≡ n → read (xs ++ ys) n ≡ some (xs, ys)
unfolding read
read-append xs ys n e =
    ap (λ (b : Bool). if b then none else some (take n (xs ++ ys), drop n (xs ++ ys)))
      (le→ltb (length (xs ++ ys)) n (omega (arith, length-append xs ys)))
    ∙ ap (λ k. some (take k (xs ++ ys), drop k (xs ++ ys))) (sym e)
    ∙ ap₂ (λ u v. some (u, v)) (take-append_left xs ys) (drop-append_left xs ys)

-- One message as it stands in the file.
abbrev framed : List ℕ → List ℕ
framed buf = to_bytes 2 (u16 (length buf)) ++ buf

log_messages-append :
    (out : List ℕ) (bufs : List (List ℕ)) → log_messages out bufs ≡ out ++ log_messages [] bufs
unfolding log_messages log_message
log_messages-append out [] = sym (append-nil out)
log_messages-append out (buf ∷ bufs) =
    log_messages-append (out ++ framed buf) bufs
    ∙ append_assoc out (framed buf) (log_messages [] bufs)
    ∙ ap (λ t. out ++ t) (sym (log_messages-append (framed buf) bufs))

log_messages-cons :
    (buf : List ℕ) (bufs : List (List ℕ))
    → log_messages [] (buf ∷ bufs) ≡ to_bytes 2 (u16 (length buf)) ++ (buf ++ log_messages [] bufs)
unfolding log_messages log_message
log_messages-cons buf bufs =
    log_messages-append (framed buf) bufs
    ∙ append_assoc (to_bytes 2 (u16 (length buf))) buf (log_messages [] bufs)

read-framed :
    (buf rest : List ℕ)
    → length buf < max_buf
    → read_log_message (to_bytes 2 (u16 (length buf)) ++ (buf ++ rest)) max_buf ≡ message buf rest
unfolding read_log_message
read-framed buf rest h =
    rw
      (
        read_log_message,
        read-append (to_bytes 2 (u16 (length buf))) (buf ++ rest) 2 (length-to_bytes 2 _),
        size,
        lt→ltb (length buf) max_buf h,
        read-append buf rest (length buf) refl,
      )
      refl
  where
    size : bytes_value (to_bytes 2 (u16 (length buf))) ≡ length buf
    size =
        two_bytes (u16 (length buf)) (omega arith)
        ∙ mod-eq_of_lt {n = length buf} {m = 65536} (omega arith)

-- Messages that fit the reader's buffer.
abbrev pub AllShort : List (List ℕ) → Type 0
AllShort [] = Unit {0}
AllShort (buf ∷ bufs) = (length buf < max_buf) × AllShort bufs

read_all-log_messages :
    (fuel : ℕ) (bufs : List (List ℕ))
    → AllShort bufs
    → length bufs < fuel
    → read_all fuel (log_messages [] bufs) ≡ (bufs, true)
unfolding read_all read_log_message read log_messages
read_all-log_messages zero bufs h f = absurd (omega arith)
read_all-log_messages (suc fuel) [] h f = refl
read_all-log_messages (suc fuel) (buf ∷ bufs) h f =
    rw
      (
        log_messages-cons buf bufs,
        read_all,
        read-framed buf (log_messages [] bufs) h.0,
        read_all-log_messages fuel bufs h.1 (omega arith),
      )
      refl

count_le-length : (bufs : List (List ℕ)) → length bufs ≤ length (log_messages [] bufs)
unfolding log_messages
count_le-length [] = omega arith
count_le-length (buf ∷ bufs) = omega (
  arith,
  ap length (log_messages-cons buf bufs),
  length-append (to_bytes 2 (u16 (length buf))) (buf ++ log_messages [] bufs),
  length-append buf (log_messages [] bufs),
  length-to_bytes 2 (u16 (length buf)),
  count_le-length bufs,
)

-- A log that was started at a time of 64 bits and that got messages of fewer than 1024 bytes, in
-- any number and order, is read back as that time and these messages, up to the end of the file.
pub log_roundtrip :
    (start_time : ℕ) (bufs : List (List ℕ))
    → start_time < 2 ^ 64
    → AllShort bufs
    → (rest : List ℕ) × (read_start_time (log_messages (new_log start_time) bufs)
        ≡ some (start_time, rest))
      × (read_all (suc (length rest)) rest ≡ (bufs, true))
unfolding read_start_time new_log
log_roundtrip start_time bufs t h = (
  log_messages [] bufs,
  rw
      (
        log_messages-append (to_bytes 8 (u64 start_time)) bufs,
        read_start_time,
        read-append (to_bytes 8 (u64 start_time)) (log_messages [] bufs) 8 (length-to_bytes 8 _),
        time,
      )
      refl,
  read_all-log_messages (suc (length (log_messages [] bufs))) bufs h
      (omega (arith, count_le-length bufs)),
)
  where
    time : bytes_value (to_bytes 8 (u64 start_time)) ≡ start_time
    time = eight_bytes (u64 start_time) (omega arith) ∙ mod-eq_of_lt {n = start_time} {m = 2 ^ 64} t

-- A logged message of 1024 bytes, which the logger's buffer holds, stops the reader, whatever else
-- is in the log behind it.
full_buffer_stops :
    (buf : List ℕ) (bufs : List (List ℕ))
    → length buf ≡ max_buf
    → read_log_message (log_messages [] (buf ∷ bufs)) max_buf ≡ too_long max_buf
unfolding read_log_message
full_buffer_stops buf bufs h =
    rw
      (
        log_messages-cons buf bufs,
        read_log_message,
        read-append (to_bytes 2 (u16 (length buf))) (buf ++ log_messages [] bufs) 2
            (length-to_bytes 2 _),
        size,
      )
      refl
  where
    size : bytes_value (to_bytes 2 (u16 (length buf))) ≡ 1024
    size = two_bytes (u16 (length buf)) (omega arith) ∙ omega arith
