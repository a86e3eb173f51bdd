-- ===== src/Ltc4015/Bit.antt =====
-- drivers/ltc4015/registers.go: the bits of the configuration, status and alert registers.
use devicecode_go.Base.{ℕ, ◌^◌}

abbrev suspend_charger : ℕ
suspend_charger = 2 ^ 8

abbrev run_bsr : ℕ
run_bsr = 2 ^ 5

abbrev force_meas_sys_on : ℕ
force_meas_sys_on = 2 ^ 4

abbrev mppt_enable_i2c : ℕ
mppt_enable_i2c = 2 ^ 3

abbrev enable_q_count : ℕ
enable_q_count = 2 ^ 2

abbrev pub en_c_over_x_term : ℕ
en_c_over_x_term = 2 ^ 2

abbrev pub en_lead_acid_temp_comp : ℕ
en_lead_acid_temp_comp = 2 ^ 1

abbrev pub en_jeita : ℕ
en_jeita = 2 ^ 0

abbrev charger_enabled : ℕ
charger_enabled = 2 ^ 13

abbrev mppt_en_pin : ℕ
mppt_en_pin = 2 ^ 11

abbrev equalize_req : ℕ
equalize_req = 2 ^ 10

abbrev drvcc_good : ℕ
drvcc_good = 2 ^ 9

abbrev cell_count_error : ℕ
cell_count_error = 2 ^ 8

abbrev ok_to_charge : ℕ
ok_to_charge = 2 ^ 6

abbrev no_rt : ℕ
no_rt = 2 ^ 5

abbrev thermal_shutdown : ℕ
thermal_shutdown = 2 ^ 4

abbrev vin_ovlo : ℕ
vin_ovlo = 2 ^ 3

abbrev vin_gt_vbat : ℕ
vin_gt_vbat = 2 ^ 2

abbrev intvcc_gt_4p3v : ℕ
intvcc_gt_4p3v = 2 ^ 1

abbrev intvcc_gt_2p8v : ℕ
intvcc_gt_2p8v = 2 ^ 0

abbrev pub meas_sys_valid : ℕ
meas_sys_valid = 2 ^ 15

abbrev q_count_lo : ℕ
q_count_lo = 2 ^ 13

abbrev q_count_hi : ℕ
q_count_hi = 2 ^ 12

abbrev pub vbat_lo : ℕ
vbat_lo = 2 ^ 11

abbrev pub vbat_hi : ℕ
vbat_hi = 2 ^ 10

abbrev pub vin_lo : ℕ
vin_lo = 2 ^ 9

abbrev pub vin_hi : ℕ
vin_hi = 2 ^ 8

abbrev pub vsys_lo : ℕ
vsys_lo = 2 ^ 7

abbrev pub vsys_hi : ℕ
vsys_hi = 2 ^ 6

abbrev iin_hi : ℕ
iin_hi = 2 ^ 5

abbrev ibat_lo : ℕ
ibat_lo = 2 ^ 4

abbrev die_temp_hi : ℕ
die_temp_hi = 2 ^ 3

abbrev bsr_hi : ℕ
bsr_hi = 2 ^ 2

abbrev pub ntc_ratio_hi : ℕ
ntc_ratio_hi = 2 ^ 1

abbrev pub ntc_ratio_lo : ℕ
ntc_ratio_lo = 2 ^ 0

abbrev equalize_charge : ℕ
equalize_charge = 2 ^ 10

abbrev absorb_charge : ℕ
absorb_charge = 2 ^ 9

abbrev charger_suspended : ℕ
charger_suspended = 2 ^ 8

abbrev precharge : ℕ
precharge = 2 ^ 7

abbrev cccv_charge : ℕ
cccv_charge = 2 ^ 6

abbrev ntc_pause : ℕ
ntc_pause = 2 ^ 5

abbrev timer_term : ℕ
timer_term = 2 ^ 4

abbrev c_over_x_term : ℕ
c_over_x_term = 2 ^ 3

abbrev max_charge_time_fault : ℕ
max_charge_time_fault = 2 ^ 2

abbrev bat_missing_fault : ℕ
bat_missing_fault = 2 ^ 1

abbrev bat_short_fault : ℕ
bat_short_fault = 2 ^ 0

abbrev vin_uvcl_active : ℕ
vin_uvcl_active = 2 ^ 3

abbrev iin_limit_active : ℕ
iin_limit_active = 2 ^ 2

abbrev const_current : ℕ
const_current = 2 ^ 1

abbrev const_voltage : ℕ
const_voltage = 2 ^ 0
