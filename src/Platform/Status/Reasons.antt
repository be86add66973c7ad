-- ===== src/Platform/Status/Reasons.antt =====
-- What a status of src/platform/status.ts says.
use agentgather.Common.{
  ◌≡◌, ◌≢◌, ◌↔◌, refl, Bool, true, false, not, ◌&&◌, none, some, every, if◌then◌else◌, Bool-cases,
  inl, inr,
}
use agentgather.Protocol.Types.{RoomStatus}
use agentgather.Tunnel.Protocol.{RouteStatus, RouteMetadata}
use agentgather.Platform.Status.{
  PlatformRoomStatus, PlatformStatusReason, active, idle, paused, closed, foreground_attending,
  foreground_idle, no_foreground_required, host_unavailable, route_expired, route_closed,
  room_closed, HostStatusSignal, RouteHealthSignal, route_signal_from_metadata,
  derive_platform_status, status_and_reason, required, is_empty, is_foreground, is_expired,
  is_closed, is_closed_room, is_true,
}

-- The status that a reason explains.
unfoldable pub status_of : PlatformStatusReason → PlatformRoomStatus
status_of foreground_attending = active
status_of foreground_idle = idle
status_of no_foreground_required = idle
status_of host_unavailable = paused
status_of route_expired = paused
status_of route_closed = closed
status_of room_closed = closed

-- The status is the one that its reason explains, whatever the signals are.
pub status_reason_lem :
    (route : RouteHealthSignal) (host : HostStatusSignal)
    → (derive_platform_status route host).status
      ≡ status_of (derive_platform_status route host).reason
unfolding derive_platform_status status_and_reason status_of
status_reason_lem route host =
    elim (Bool-cases (route.registered && is_closed route.route_status)) [
      | inl e1 ↦ rw (e1) refl
      | inr e1 ↦ elim (Bool-cases (is_closed_room host.room_status)) [
        | inl e2 ↦ rw (e1, e2) refl
        | inr e2 ↦ elim (Bool-cases (not route.registered)) [
          | inl e3 ↦ rw (e1, e2, e3) refl
          | inr e3 ↦ elim (Bool-cases (is_expired route.route_status)) [
            | inl e4 ↦ rw (e1, e2, e3, e4) refl
            | inr e4 ↦ elim (Bool-cases (not (is_true route.host_connected))) [
              | inl e5 ↦ rw (e1, e2, e3, e4, e5) refl
              | inr e5 ↦ elim (Bool-cases (is_empty (required host))) [
                | inl e6 ↦ rw (e1, e2, e3, e4, e5, e6) refl
                | inr e6 ↦ elim (Bool-cases (every is_foreground (required host))) [
                  | inl e7 ↦ rw (e1, e2, e3, e4, e5, e6, e7) refl
                  | inr e7 ↦ rw (e1, e2, e3, e4, e5, e6, e7) refl
                ]
              ]
            ]
          ]
        ]
      ]
    ]

-- What the status of a room with a route depends on.
abbrev shown :
    RouteStatus → Bool → RoomStatus → Bool → Bool → PlatformRoomStatus × PlatformStatusReason
shown s connected room none_required all_foreground =
    if is_closed (some s)
    then (closed, route_closed)
    else if is_closed_room room
    then (closed, room_closed)
    else if is_expired (some s)
    then (paused, route_expired)
    else if not connected
    then (paused, host_unavailable)
    else if none_required
    then (idle, no_foreground_required)
    else if all_foreground
    then (active, foreground_attending)
    else (idle, foreground_idle)

abbrev shown_without_route : RoomStatus → PlatformRoomStatus × PlatformStatusReason
shown_without_route room =
    if is_closed_room room then (closed, room_closed) else (paused, host_unavailable)

-- The host attends an active route of an open room, and all who must attend do.
abbrev IsAttended : RouteStatus → Bool → RoomStatus → Bool → Bool → Type 0
IsAttended s connected room none_required all_foreground =
    (s ≡ RouteStatus.active)
    × (connected ≡ true)
    × (room ≡ RoomStatus.opened)
    × (none_required ≡ false)
    × (all_foreground ≡ true)

shown-IsAttended :
    (s : RouteStatus) (connected : Bool) (room : RoomStatus) (none_required all_foreground : Bool)
    → (shown s connected room none_required all_foreground).0 ≡ active
    → IsAttended s connected room none_required all_foreground
shown-IsAttended RouteStatus.closed c room n a e = absurd (cc e)
shown-IsAttended RouteStatus.active c RoomStatus.closed n a e = absurd (cc e)
shown-IsAttended RouteStatus.expired c RoomStatus.closed n a e = absurd (cc e)
shown-IsAttended RouteStatus.expired c RoomStatus.opened n a e = absurd (cc e)
shown-IsAttended RouteStatus.active false RoomStatus.opened n a e = absurd (cc e)
shown-IsAttended RouteStatus.active true RoomStatus.opened true a e = absurd (cc e)
shown-IsAttended RouteStatus.active true RoomStatus.opened false false e = absurd (cc e)
shown-IsAttended RouteStatus.active true RoomStatus.opened false true e =
    (refl, refl, refl, refl, refl)

-- A room with a route is shown as active exactly when the route is active, its host is connected, the
-- host says that the room is open and requires someone, and all who are required are in the
-- foreground; a room without a route never is.
pub active_iff :
    (route : RouteMetadata) (host : HostStatusSignal)
    → (((derive_platform_status (route_signal_from_metadata (some route)) host).status ≡ active) ↔ (
        (route.status ≡ RouteStatus.active)
        × (route.host_connected ≡ true)
        × (host.room_status ≡ RoomStatus.opened)
        × (is_empty (required host) ≡ false)
        × (every is_foreground (required host) ≡ true)))
      × ((derive_platform_status (route_signal_from_metadata none) host).status ≢ active)
unfolding derive_platform_status status_and_reason route_signal_from_metadata
active_iff route host = (
  (
    λ e.
        shown-IsAttended route.status route.host_connected host.room_status
          (is_empty (required host)) (every is_foreground (required host)) e,
    λ h. rw (h.0, h.1, h.2, h.3, h.4) refl,
  ),
  never host.room_status,
)
  where
    never : (room : RoomStatus) → (shown_without_route room).0 ≢ active
    never RoomStatus.opened e = cc e
    never RoomStatus.closed e = cc e
