-- ===== src/Protocol/Attendance.antt =====
-- src/protocol/attendance.ts: the attendance policies, as they are written and as they are described.
use Prim.Native.String.{String}
use agentgather.Common.{Option, none, some, List, [], ◌∷◌, JsString, js, str_eq, if◌then◌else◌}
use agentgather.Protocol.Types.{
  AttendancePolicy, manual_ok, agents_foreground, all_foreground, host_directed,
}

abbrev pub attendance_policies : List AttendancePolicy
attendance_policies = manual_ok ∷ agents_foreground ∷ all_foreground ∷ host_directed ∷ []

unfoldable pub policy_text : AttendancePolicy → JsString
policy_text manual_ok = js "manual-ok"
policy_text agents_foreground = js "agents-foreground"
policy_text all_foreground = js "all-foreground"
policy_text host_directed = js "host-directed"

policy_among : List AttendancePolicy → JsString → Option AttendancePolicy
unfolding policy_text
policy_among [] value = none
policy_among (p ∷ ps) value = if str_eq (policy_text p) value then some p else policy_among ps value

-- `none` where the source throws.
unfoldable pub parse_attendance_policy : JsString → Option AttendancePolicy
unfolding policy_among
parse_attendance_policy value = policy_among attendance_policies value

unfoldable pub describe_attendance_policy : AttendancePolicy → String
describe_attendance_policy manual_ok = "Manual/drop-in participation is allowed."
describe_attendance_policy agents_foreground =
    "Agent participants should run foreground attendance until the room closes."
describe_attendance_policy all_foreground =
    "All agent participants are expected to stay in foreground attendance until released."
describe_attendance_policy host_directed =
    "Participants may start manual/standby and switch to foreground when the host asks; fully idle agents will not see that request."
