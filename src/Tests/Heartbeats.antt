-- ===== src/Tests/Heartbeats.antt =====
-- A heartbeat with the marker 1.
use wendougee_data_ha.Base.{ok, ◌≡◌, ◌↔◌, ◌<◌}
use wendougee_data_ha.Events.{parse_heartbeat_event}
use wendougee_data_ha.Events.Heartbeats.{heartbeat, parse_heartbeat_event_iff}

parse_heartbeat_event_iff_example :
    (parse_heartbeat_event (heartbeat 1) ≡ ok (record { marker = 1 }))
    ↔ ((heartbeat 1 ≡ heartbeat 1) × (1 < 2))
parse_heartbeat_event_iff_example = parse_heartbeat_event_iff (heartbeat 1) (record { marker = 1 })
