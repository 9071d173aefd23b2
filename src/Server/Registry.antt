-- ===== src/Server/Registry.antt =====
-- Plugging and unplugging on one listener: usbip_serve_start and usbip_serve_stop of src/usbip.c,
-- the parts under `server->lock`. A device is known by a number, its address in memory; socket and
-- thread creation may fail and are one answer, `started`.
use usbip_c.Base.{ℕ, ◌+◌, ◌%◌, ◌/◌, ◌^◌, List, [], ◌∷◌, ◌++◌, Bool, true, false, Option, none, some}
use usbip_c.Base.{leb, ltb, ◌==◌, if◌then◌else◌, length}
use usbip_c.Base.Buffers.{codes}

-- `%d` of a count below 100: a listener has 16 devices at most.
abbrev pub decimal : ℕ → List ℕ
decimal n = if ltb n 10 then (48 + n) ∷ [] else (48 + n / 10) ∷ (48 + n % 10) ∷ []

-- a plugged device: its address, and what plugging wrote to it
pub record Slot : Type 0 where
  pub dev : ℕ
  pub busid : List ℕ
  pub devnum : ℕ

pub record Listener : Type 0 where
  pub running : Bool
  pub devs : List Slot
  pub next_devnum : ℕ

abbrev pub max_devices : ℕ
max_devices = 16

-- `USBIP_DEV_DEVNUM`
abbrev pub first_devnum : ℕ
first_devnum = 2

-- `calloc` in server_for
abbrev pub idle_listener : Listener
idle_listener = record { running = false; devs = []; next_devnum = 0 }

pub data Result : Type 0 where
  success error_no_mem error_start : Result

-- "1-%d"
abbrev pub auto_busid : ℕ → List ℕ
auto_busid n = codes "1-" ++ decimal n

-- `if (!dev->busid[0])`
unfoldable pub assign_busid : List ℕ → ℕ → List ℕ
assign_busid [] n = auto_busid (n + 1)
assign_busid (c ∷ s) n = c ∷ s

-- `server_start` where the listener is idle; `none` is its failure, which may set `next_devnum`, as
-- the next start does again.
unfoldable pub ensure_running : Bool → Listener → Option Listener
ensure_running started l =
    if l.running
    then some l
    else (if started then some (record l { running = true; next_devnum = first_devnum }) else none)

unfoldable pub join : Listener → ℕ → List ℕ → Listener
unfolding assign_busid
join l dev busid =
    let slot : Slot = record {
      dev = dev;
      busid = assign_busid busid (length l.devs);
      devnum = l.next_devnum;
    } in
    record l { devs = l.devs ++ (slot ∷ []); next_devnum = (l.next_devnum + 1) % 2 ^ 32 }

-- `busid` is what the application chose, [] for none.
unfoldable pub serve_start : Bool → Listener → ℕ → List ℕ → Result × Listener
unfolding ensure_running join
serve_start started l dev busid =
    if leb max_devices (length l.devs) then (error_no_mem, l) else elim (ensure_running started l) [
      | none ↦ (error_start, l)
      | some l' ↦ (success, join l' dev busid)
    ]

-- the loop with memmove: the first entry that is the device goes
unfoldable pub remove : ℕ → List Slot → List Slot
remove dev [] = []
remove dev (s ∷ ss) = if s.dev == dev then ss else s ∷ remove dev ss

-- The last device out stops the listener. `attached` says that `dev->server` is this listener and
-- not NULL.
unfoldable pub serve_stop : Bool → Listener → ℕ → Listener
unfolding remove
serve_stop attached l dev =
    let left = remove dev l.devs in
    if attached
    then record l { devs = left; running = if length left == 0 then false else l.running }
    else l
