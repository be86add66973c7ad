-- ===== src/Platform/Status.antt =====
-- src/platform/status.ts: the status of a room that the platform shows, from the broker's route and
-- the attendance that the host reports.
pub mod Reasons
mod Tests
use agentgather.Common.{
  Bool, true, false, not, ◌&&◌, ◌||◌, Option, none, some, List, [], ◌∷◌, js, JsString, str_eq,
  every, filter, if◌then◌else◌,
}
use agentgather.Protocol.Types.{ParticipantKind, RoomStatus}
use agentgather.Tunnel.Protocol.{RouteStatus, RouteMetadata}

pub data PlatformRoomStatus : Type 0 where
  active idle paused closed : PlatformRoomStatus

pub data PlatformStatusReason : Type 0 where
  foreground_attending foreground_idle no_foreground_required : PlatformStatusReason
  host_unavailable route_expired route_closed room_closed : PlatformStatusReason

pub record RouteHealth : Type 0 where
  pub reachable : Bool
  pub host_connected : Bool

pub record RouteHealthSignal : Type 0 where
  pub registered : Bool
  pub route_status : Option RouteStatus
  pub host_connected : Option Bool

pub record HostAttendanceParticipant : Type 0 where
  pub kind : ParticipantKind
  pub attendance_required : Bool
  pub attendance_state : JsString

pub record HostStatusSignal : Type 0 where
  pub room_status : RoomStatus
  pub participants : List HostAttendanceParticipant

pub record PlatformStatusResult : Type 0 where
  pub status : PlatformRoomStatus
  pub reason : PlatformStatusReason
  pub route_health : RouteHealth

-- FOREGROUND_STATES.
abbrev pub is_foreground : HostAttendanceParticipant → Bool
is_foreground p =
    str_eq p.attendance_state (js "attending") || str_eq p.attendance_state (js "managed")

unfoldable pub route_signal_from_metadata : Option RouteMetadata → RouteHealthSignal
route_signal_from_metadata none = record {
  registered = false;
  route_status = none;
  host_connected = none;
}
route_signal_from_metadata (some route) = record {
  registered = true;
  route_status = some route.status;
  host_connected = some route.host_connected;
}

abbrev pub is_active : Option RouteStatus → Bool
is_active (some RouteStatus.active) = true
is_active _ = false

abbrev pub is_expired : Option RouteStatus → Bool
is_expired (some RouteStatus.expired) = true
is_expired _ = false

abbrev pub is_closed : Option RouteStatus → Bool
is_closed (some RouteStatus.closed) = true
is_closed _ = false

abbrev pub is_closed_room : RoomStatus → Bool
is_closed_room RoomStatus.opened = false
is_closed_room RoomStatus.closed = true

abbrev pub is_true : Option Bool → Bool
is_true none = false
is_true (some b) = b

unfoldable pub route_health_from_signal : RouteHealthSignal → RouteHealth
route_health_from_signal route = record {
  reachable = route.registered && is_active route.route_status;
  host_connected = is_true route.host_connected;
}

abbrev pub required : HostStatusSignal → List HostAttendanceParticipant
required host = filter (λ p. p.attendance_required) host.participants

abbrev pub is_empty : List HostAttendanceParticipant → Bool
is_empty [] = true
is_empty (p ∷ participants) = false

-- The status and its reason.
unfoldable pub status_and_reason :
    RouteHealthSignal → HostStatusSignal → PlatformRoomStatus × PlatformStatusReason
status_and_reason route host =
    if route.registered && is_closed route.route_status
    then (PlatformRoomStatus.closed, route_closed)
    else if is_closed_room host.room_status
    then (PlatformRoomStatus.closed, room_closed)
    else if not route.registered
    then (paused, host_unavailable)
    else if is_expired route.route_status
    then (paused, route_expired)
    else if not (is_true route.host_connected)
    then (paused, host_unavailable)
    else if is_empty (required host)
    then (idle, no_foreground_required)
    else if every is_foreground (required host)
    then (PlatformRoomStatus.active, foreground_attending)
    else (idle, foreground_idle)

unfoldable pub derive_platform_status : RouteHealthSignal → HostStatusSignal → PlatformStatusResult
unfolding status_and_reason route_health_from_signal
derive_platform_status route host = record {
  status = (status_and_reason route host).0;
  reason = (status_and_reason route host).1;
  route_health = route_health_from_signal route;
}
