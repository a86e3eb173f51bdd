-- ===== src/Ltc4015/Reg.antt =====
-- drivers/ltc4015/registers.go: the addresses on the bus and the 16-bit registers of the charger.
use devicecode_go.Base.{ℕ}

abbrev pub address_default : ℕ
address_default = 0x68

abbrev pub ara_address : ℕ
ara_address = 0x0c

abbrev pub vbat_lo_alert_limit : ℕ
vbat_lo_alert_limit = 0x01

abbrev pub vbat_hi_alert_limit : ℕ
vbat_hi_alert_limit = 0x02

abbrev pub vin_lo_alert_limit : ℕ
vin_lo_alert_limit = 0x03

abbrev pub vin_hi_alert_limit : ℕ
vin_hi_alert_limit = 0x04

abbrev pub vsys_lo_alert_limit : ℕ
vsys_lo_alert_limit = 0x05

abbrev pub vsys_hi_alert_limit : ℕ
vsys_hi_alert_limit = 0x06

abbrev pub iin_hi_alert_limit : ℕ
iin_hi_alert_limit = 0x07

abbrev pub ibat_lo_alert_limit : ℕ
ibat_lo_alert_limit = 0x08

abbrev pub die_temp_hi_alert_limit : ℕ
die_temp_hi_alert_limit = 0x09

abbrev pub bsr_hi_alert_limit : ℕ
bsr_hi_alert_limit = 0x0a

abbrev pub ntc_ratio_hi_alert_limit : ℕ
ntc_ratio_hi_alert_limit = 0x0b

abbrev pub ntc_ratio_lo_alert_limit : ℕ
ntc_ratio_lo_alert_limit = 0x0c

abbrev pub en_limit_alerts : ℕ
en_limit_alerts = 0x0d

abbrev pub en_charger_st_alerts : ℕ
en_charger_st_alerts = 0x0e

abbrev pub en_charge_st_alerts : ℕ
en_charge_st_alerts = 0x0f

abbrev pub q_count_lo_limit : ℕ
q_count_lo_limit = 0x10

abbrev pub q_count_hi_limit : ℕ
q_count_hi_limit = 0x11

abbrev pub q_count_prescale : ℕ
q_count_prescale = 0x12

abbrev pub q_count : ℕ
q_count = 0x13

abbrev pub config_bits : ℕ
config_bits = 0x14

abbrev pub iin_limit_setting : ℕ
iin_limit_setting = 0x15

abbrev pub vin_uvcl_setting : ℕ
vin_uvcl_setting = 0x16

abbrev pub jeita_t1 : ℕ
jeita_t1 = 0x1f

abbrev pub jeita_t2 : ℕ
jeita_t2 = 0x20

abbrev pub jeita_t3 : ℕ
jeita_t3 = 0x21

abbrev pub jeita_t4 : ℕ
jeita_t4 = 0x22

abbrev pub jeita_t5 : ℕ
jeita_t5 = 0x23

abbrev pub jeita_t6 : ℕ
jeita_t6 = 0x24

abbrev pub jeita_vchg_2_4 : ℕ
jeita_vchg_2_4 = 0x26

abbrev pub jeita_vchg_5_6 : ℕ
jeita_vchg_5_6 = 0x25

abbrev pub jeita_ichg_2_4 : ℕ
jeita_ichg_2_4 = 0x28

abbrev pub jeita_ichg_5_6 : ℕ
jeita_ichg_5_6 = 0x27

abbrev pub i_charge_target : ℕ
i_charge_target = 0x1a

abbrev pub v_charge_setting : ℕ
v_charge_setting = 0x1b

abbrev pub c_over_x_threshold : ℕ
c_over_x_threshold = 0x1c

abbrev pub max_cv_time : ℕ
max_cv_time = 0x1d

abbrev pub max_charge_time : ℕ
max_charge_time = 0x1e

abbrev pub charger_cfg_bits : ℕ
charger_cfg_bits = 0x29

abbrev pub v_absorb_delta : ℕ
v_absorb_delta = 0x2a

abbrev pub max_absorb_time : ℕ
max_absorb_time = 0x2b

abbrev pub v_equalize_delta : ℕ
v_equalize_delta = 0x2c

abbrev pub equalize_time : ℕ
equalize_time = 0x2d

abbrev pub lifepo4_rchg_th : ℕ
lifepo4_rchg_th = 0x2e

abbrev pub i_charge_dac : ℕ
i_charge_dac = 0x44

abbrev pub v_charge_dac : ℕ
v_charge_dac = 0x45

abbrev pub iin_limit_dac : ℕ
iin_limit_dac = 0x46

abbrev pub charger_state : ℕ
charger_state = 0x34

abbrev pub charge_status : ℕ
charge_status = 0x35

abbrev pub limit_alerts : ℕ
limit_alerts = 0x36

abbrev pub charger_state_alert : ℕ
charger_state_alert = 0x37

abbrev pub charge_stat_alerts : ℕ
charge_stat_alerts = 0x38

abbrev pub system_status : ℕ
system_status = 0x39

abbrev pub vbat : ℕ
vbat = 0x3a

abbrev pub vin : ℕ
vin = 0x3b

abbrev pub vsys : ℕ
vsys = 0x3c

abbrev pub ibat : ℕ
ibat = 0x3d

abbrev pub iin : ℕ
iin = 0x3e

abbrev pub die_temp : ℕ
die_temp = 0x3f

abbrev pub ntc_ratio : ℕ
ntc_ratio = 0x40

abbrev pub bsr : ℕ
bsr = 0x41

abbrev pub chem_cells : ℕ
chem_cells = 0x43

abbrev pub i_charge_bsr : ℕ
i_charge_bsr = 0x48

abbrev pub meas_sys_valid : ℕ
meas_sys_valid = 0x4a

abbrev pub cv_timer : ℕ
cv_timer = 0x31

abbrev pub absorb_timer : ℕ
absorb_timer = 0x32

abbrev pub equalize_timer : ℕ
equalize_timer = 0x33
