-- ===== src/Tests/Clocks.antt =====
-- A notation of datetimes that can be read back: an instant is as many letters as it has microseconds,
-- behind which an offset stands in the same way.
use Prim.Native.Nat.{ℕ, zero, suc}
use Prim.Native.Char.{code}
use Prim.Native.String.{String, [], ◌∷◌}
use mathlib.Core.Path.{◌≡◌, refl, ap}
use mathlib.Core.Option.{Option, none, some}
use ha_vacuum_planner.Base.{if◌then◌else◌, nat_beq, ok}
use ha_vacuum_planner.Models.{DateTime}
use ha_vacuum_planner.Codec.{IsoFormat}

abbrev letters : ℕ → String → String
letters zero s = s
letters (suc n) s = "a" ∷ letters n s

abbrev text_size : String → ℕ
text_size [] = 0
text_size (c ∷ s) = suc (text_size s)

abbrev write_parts : ℕ → Option ℕ → String
write_parts n none = letters n []
write_parts n (some e) = letters n ("b" ∷ letters e [])

abbrev later : DateTime → DateTime
later t = record t { instant = suc t.instant }

abbrev read_time : String → DateTime
read_time [] = record { instant = 0; east = none }
read_time (c ∷ s) =
    let rest = read_time s in
    if nat_beq (code c) b'a' then later rest else record { instant = 0; east = some (text_size s) }

text_size-letters : (n : ℕ) → text_size (letters n []) ≡ n
text_size-letters zero = refl
text_size-letters (suc n) = ap suc (text_size-letters n)

read_time-letters :
    (n : ℕ) (s : String) {e : Option ℕ}
    → read_time s ≡ record { instant = 0; east = e }
    → read_time (letters n s) ≡ record { instant = n; east = e }
read_time-letters zero s h = h
read_time-letters (suc n) s h = ap later (read_time-letters n s h)

abbrev pub clock : IsoFormat
clock = record {
  isoformat = λ t. write_parts t.instant t.east;
  fromisoformat = λ s. ok (read_time s);
}

read_time-write_parts :
    (n : ℕ) (e : Option ℕ) → read_time (write_parts n e) ≡ record { instant = n; east = e }
read_time-write_parts n none = read_time-letters n [] refl
read_time-write_parts n (some e) =
    read_time-letters n ("b" ∷ letters e [])
      (ap (λ k. record { instant = 0; east = some k }) (text_size-letters e))

pub clock-reads : (t : DateTime) → clock.fromisoformat (clock.isoformat t) ≡ ok t
clock-reads t = ap ok (read_time-write_parts t.instant t.east)
