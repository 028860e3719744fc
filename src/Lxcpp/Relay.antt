-- ===== src/Lxcpp/Relay.antt =====
-- How the guard passes bytes between a terminal of the container and the terminal of the host that stands for it
-- (onContTerminal and onImplTerminal of libs/lxcpp/guard/guard.cpp). Each direction has an array and an offset, the number
-- of bytes in it that wait. Each terminal is watched for reading or for writing.
pub mod Buffers
pub mod Fifo
pub mod Order
pub mod Progress
mod Examples
use vasum.Prelude.{
  ℕ, zero, suc, ◌+◌, ◌-◌, ◌≤◌, ◌≡◌, Bool, true, false, List, [], ◌∷◌, Text, Option, none, some,
  length, take, drop, nat_eq, ltb, not, if◌then◌else◌, ◌&&◌,
}

-- IO_BUFFER_SIZE
abbrev pub buffer_size : ℕ
buffer_size = 1024

pub record Buffer : Type 0 where
  pub bytes : Text
  pub offset : ℕ

pub data Side : Type 0 where
  cont impl : Side

-- What a descriptor is watched for.
pub data Watch : Type 0 where
  epollin epollout : Watch

pub record Relay : Type 0 where
  pub cont_to_impl : Buffer
  pub impl_to_cont : Buffer
  pub cont_watch : Watch
  pub impl_watch : Watch

unfoldable pub zeros : ℕ → Text
zeros zero = []
zeros (suc n) = 0 ∷ zeros n

-- What containerPrepPreClone makes for each terminal: resize, the offsets, and addFD with EPOLLIN.
unfoldable pub new_relay : Relay
unfolding zeros
new_relay = record {
  cont_to_impl = record { bytes = zeros buffer_size; offset = 0 };
  impl_to_cont = record { bytes = zeros buffer_size; offset = 0 };
  cont_watch = epollin;
  impl_watch = epollin;
}

-- The calls read and write of the kernel on the two terminals: `none` is an error.
pub record RelayIo (W : Type 0) : Type 0 where
  pub read : Side → ℕ → W → Option Text × W
  pub write : Side → Text → W → Option ℕ × W

-- Bytes stored at the front of an array; what does not fit into it is not stored.
unfoldable pub write_front : Text → Text → Text
write_front [] bytes = bytes
write_front (x ∷ xs) [] = []
write_front (x ∷ xs) (b ∷ bs) = x ∷ write_front xs bs

-- Bytes stored from a position on.
unfoldable pub write_at : ℕ → Text → Text → Text
unfolding write_front
write_at zero xs bytes = write_front xs bytes
write_at (suc n) xs [] = []
write_at (suc n) xs (b ∷ bs) = b ∷ write_at n xs bs

-- What read returned is put behind what waits.
unfoldable pub fill : Buffer → Text → Buffer
unfolding write_at
fill b got = record { bytes = write_at b.offset got b.bytes; offset = b.offset + length got }

-- memmove of what was not written to the front
unfoldable pub drain : Buffer → ℕ → Buffer
unfolding write_front
drain b written = record {
  bytes = write_front (take (b.offset - written) (drop written b.bytes)) b.bytes;
  offset = b.offset - written;
}

abbrev pub waiting : Buffer → Text
waiting b = take b.offset b.bytes

-- The part of onContTerminal for EPOLLIN, after read.
unfoldable pub cont_received : Relay → Option Text → Relay
unfolding fill
cont_received r none = r
cont_received r (some []) = r
cont_received r (some (x ∷ xs)) =
    let b = fill r.cont_to_impl (x ∷ xs) in
    if nat_eq b.offset 0
    then record r { cont_to_impl = b }
    else record r { cont_to_impl = b; impl_watch = epollout }

-- The part of onContTerminal for EPOLLOUT, after write.
unfoldable pub cont_sent : Relay → Option ℕ → Relay
unfolding drain
cont_sent r none = r
cont_sent r (some zero) = r
cont_sent r (some (suc n)) =
    let b = drain r.impl_to_cont (suc n) in
    if nat_eq b.offset 0
    then record r { impl_to_cont = b; cont_watch = epollin }
    else record r { impl_to_cont = b }

unfoldable pub impl_received : Relay → Option Text → Relay
unfolding fill
impl_received r none = r
impl_received r (some []) = r
impl_received r (some (x ∷ xs)) =
    let b = fill r.impl_to_cont (x ∷ xs) in
    if nat_eq b.offset 0
    then record r { impl_to_cont = b }
    else record r { impl_to_cont = b; cont_watch = epollout }

unfoldable pub impl_sent : Relay → Option ℕ → Relay
unfolding drain
impl_sent r none = r
impl_sent r (some zero) = r
impl_sent r (some (suc n)) =
    let b = drain r.cont_to_impl (suc n) in
    if nat_eq b.offset 0
    then record r { cont_to_impl = b; impl_watch = epollin }
    else record r { cont_to_impl = b }

module _ {W : Type 0} (io : RelayIo W) where
  abbrev pub on_readable : Side → Bool → Relay × W → Relay × W
  on_readable side false s = s
  on_readable cont true (r, w) =
      let (got, w') = io.read cont (buffer_size - r.cont_to_impl.offset) w in
      (cont_received r got, w')
  on_readable impl true (r, w) =
      let (got, w') = io.read impl (buffer_size - r.impl_to_cont.offset) w in
      (impl_received r got, w')

  abbrev pub on_writable : Side → Bool → Relay × W → Relay × W
  on_writable side false s = s
  on_writable cont true (r, w) =
      if nat_eq r.impl_to_cont.offset 0
      then (r, w)
      else (let (written, w') = io.write cont (waiting r.impl_to_cont) w in
          (cont_sent r written, w'))
  on_writable impl true (r, w) =
      if nat_eq r.cont_to_impl.offset 0
      then (r, w)
      else (let (written, w') = io.write impl (waiting r.cont_to_impl) w in
          (impl_sent r written, w'))

  -- onContTerminal and onImplTerminal: the events have EPOLLIN, or not, and EPOLLOUT, or not.
  unfoldable pub on_terminal : Side → (readable writable : Bool) → Relay × W → Relay × W
  unfolding cont_received cont_sent impl_received impl_sent
  on_terminal side readable writable s = on_writable side writable (on_readable side readable s)

  unfoldable pub relay_events : List (Side × Bool × Bool) → Relay × W → Relay × W
  unfolding on_terminal
  relay_events [] s = s
  relay_events ((side, readable, writable) ∷ es) s =
      relay_events es (on_terminal side readable writable s)
