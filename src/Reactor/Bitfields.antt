-- ===== src/Reactor/Bitfields.antt =====
-- types/power.go: the bit iterator and the display tables.
use devicecode_go.Base.{
  ℕ, ◌+◌, ◌^◌, Bool, not, Option, none, some, List, [], ◌∷◌, ◌==◌, if◌then◌else◌, bit_and, drop,
}
use devicecode_go.Base.Text.{Bytes, codes}

pub record BitName : Type 0 where
  pub bit : ℕ
  pub name : Bytes

-- `i` is the number of the next entry.
pub record BitIter : Type 0 where
  pub v : ℕ
  pub i : ℕ
  pub table : List BitName

unfoldable pub new_bit_iter : ℕ → List BitName → BitIter
new_bit_iter v table = record { v = v; i = 0; table = table }

-- The loop of `Next` over the entries from `i` on.
pub next_from : ℕ → ℕ → List BitName → ℕ × Option Bytes
next_from v i [] = (i, none)
next_from v i (e ∷ es) =
    let rest = next_from v (i + 1) es in
    if not (bit_and v e.bit == 0) then (i + 1, some e.name) else rest

unfoldable pub next : BitIter → BitIter × Option Bytes
unfolding next_from
next it = let (i, found) = next_from it.v it.i (drop it.i it.table) in (record it { i = i }, found)

unfoldable pub reset : BitIter → BitIter
reset it = record it { i = 0 }

abbrev pub entry_of : ℕ → List BitName → Option (Bytes × Bool)
entry_of v [] = none
entry_of v (e ∷ es) = some (e.name, not (bit_and v e.bit == 0))

abbrev pub advanced : BitIter → Option (Bytes × Bool) → BitIter × Option (Bytes × Bool)
advanced it none = (it, none)
advanced it (some e) = (record it { i = it.i + 1 }, some e)

unfoldable pub next_any : BitIter → BitIter × Option (Bytes × Bool)
next_any it = advanced it (entry_of it.v (drop it.i it.table))

abbrev entry : ℕ → Bytes → BitName
entry k s = record { bit = 2 ^ k; name = s }

abbrev pub charger_state_table : List BitName
charger_state_table =
    entry 0 (codes "bat_short")
    ∷ entry 1 (codes "bat_missing")
    ∷ entry 2 (codes "max_charge_time_fault")
    ∷ entry 3 (codes "c_over_x_term")
    ∷ entry 4 (codes "timer_term")
    ∷ entry 5 (codes "ntc_pause")
    ∷ entry 7 (codes "precharge")
    ∷ entry 6 (codes "cccv")
    ∷ entry 9 (codes "absorb")
    ∷ entry 10 (codes "equalize")
    ∷ entry 8 (codes "suspended")
    ∷ []

abbrev pub charge_status_table : List BitName
charge_status_table =
    entry 2 (codes "iin_limited")
    ∷ entry 3 (codes "uvcl_active")
    ∷ entry 1 (codes "cc_phase")
    ∷ entry 0 (codes "cv_phase")
    ∷ []

abbrev pub system_status_table : List BitName
system_status_table =
    entry 13 (codes "charger_enabled")
    ∷ entry 11 (codes "mppt_en_pin")
    ∷ entry 10 (codes "equalize_req")
    ∷ entry 9 (codes "drvcc_good")
    ∷ entry 8 (codes "cell_count_error")
    ∷ entry 6 (codes "ok_to_charge")
    ∷ entry 5 (codes "no_rt")
    ∷ entry 4 (codes "thermal_shutdown")
    ∷ entry 3 (codes "vin_ovlo")
    ∷ entry 2 (codes "vin_gt_vbat")
    ∷ entry 1 (codes "intvcc_gt_4p3v")
    ∷ entry 0 (codes "intvcc_gt_2p8v")
    ∷ []
