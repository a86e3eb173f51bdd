-- ===== src/Hal/Topics.antt =====
-- services/hal/internal/core/topics.go: the topics of a capability and the address of a control.
use devicecode_go.Base.{Option, none, some, [], ◌∷◌, ◌++◌}
use devicecode_go.Base.Text.{Bytes, codes}
use devicecode_go.Bus.Topic.{text, Topic}
use devicecode_go.Hal.Data.{CapAddr}

-- `T` panics on tokens that are not allowed; a string is.
abbrev pub topic_config_hal : Topic
topic_config_hal = text (codes "config") ∷ text (codes "hal") ∷ []

abbrev pub topic_state : Topic
topic_state = text (codes "hal") ∷ text (codes "state") ∷ []

unfoldable pub cap_base : CapAddr → Topic
cap_base a =
    text (codes "hal") ∷ text (codes "cap") ∷ text a.domain ∷ text a.kind ∷ text a.name ∷ []

unfoldable pub cap_info : CapAddr → Topic
unfolding cap_base
cap_info a = cap_base a ++ (text (codes "info") ∷ [])

unfoldable pub cap_status : CapAddr → Topic
unfolding cap_base
cap_status a = cap_base a ++ (text (codes "status") ∷ [])

unfoldable pub cap_value : CapAddr → Topic
unfolding cap_base
cap_value a = cap_base a ++ (text (codes "value") ∷ [])

unfoldable pub cap_event : CapAddr → Topic
unfolding cap_base
cap_event a = cap_base a ++ (text (codes "event") ∷ [])

unfoldable pub cap_event_tagged : CapAddr → Bytes → Topic
unfolding cap_event
cap_event_tagged a tag = cap_event a ++ (text tag ∷ [])

-- `parseCapCtrl`: the tokens at 2, 3, 4 and 6 of a topic of at least seven have to be strings.
abbrev pub parse_cap_ctrl : Topic → Option (CapAddr × Bytes)
parse_cap_ctrl (t0 ∷ t1 ∷ text d ∷ text k ∷ text n ∷ t5 ∷ text v ∷ rest) =
    some (record { domain = d; kind = k; name = n }, v)
parse_cap_ctrl t = none

abbrev pub ctrl_wildcard : Topic
ctrl_wildcard =
    let any = text (codes "+") in
    text (codes "hal") ∷ text (codes "cap") ∷ any ∷ any ∷ any ∷ text (codes "control") ∷ any ∷ []
