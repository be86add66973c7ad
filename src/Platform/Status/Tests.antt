-- ===== src/Platform/Status/Tests.antt =====
-- The theorems on src/platform/status.ts at a concrete room.
use agentgather.Common.{◌≡◌, ◌≢◌, ◌↔◌, true, false, some, none, [], ◌∷◌, js, every}
use agentgather.Protocol.Types.{ParticipantKind, RoomStatus}
use agentgather.Tunnel.Protocol.{RouteStatus, RouteMetadata}
use agentgather.Platform.Status.{
  HostStatusSignal, active, route_signal_from_metadata, derive_platform_status, required, is_empty,
  is_foreground,
}
use agentgather.Platform.Status.Reasons.{active_iff}

abbrev host : HostStatusSignal
host = record {
  room_status = RoomStatus.opened;
  participants =
      record {
        kind = ParticipantKind.agent;
        attendance_required = true;
        attendance_state = js "attending";
      }
      ∷ [];
}

abbrev route : RouteMetadata
route = record {
  route_slug = js "room";
  route_id = js "r";
  host_connection_id = js "h";
  created_at = 0;
  last_seen_at = 0;
  last_heartbeat_at = 0;
  expires_at = 100;
  status = RouteStatus.active;
  host_connected = true;
}

active_example :
    (((derive_platform_status (route_signal_from_metadata (some route)) host).status ≡ active) ↔ (
      (route.status ≡ RouteStatus.active)
      × (route.host_connected ≡ true)
      × (host.room_status ≡ RoomStatus.opened)
      × (is_empty (required host) ≡ false)
      × (every is_foreground (required host) ≡ true)))
    × ((derive_platform_status (route_signal_from_metadata none) host).status ≢ active)
active_example = active_iff route host
