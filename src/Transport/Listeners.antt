-- ===== src/Transport/Listeners.antt =====
-- WebRtcTransport.ts: the statistics and the handlers.
use lookauniversalremote.Prelude.{ℕ, if◌then◌else◌}
use lookauniversalremote.Bridge.Incoming.{add, delete}
use lookauniversalremote.Transport.State.{TransportStats, Millis, WebRtcTransport}
use lookauniversalremote.Transport.Peer.{notify_stats}

module _ {D : Type 0} where
  unfoldable pub update_rtt : Millis D → ℕ → D → WebRtcTransport D → WebRtcTransport D
  unfolding notify_stats
  update_rtt m now rtt s =
      let jitter = m.distance rtt s.stats.rtt_ms in
      notify_stats (record s {
        stats = record s.stats {
          jitter_ms =
              if m.is_nought s.stats.jitter_ms then jitter else m.smooth s.stats.jitter_ms jitter;
          rtt_ms = rtt;
          last_heartbeat_ts = now;
        };
      })

  unfoldable pub get_stats : WebRtcTransport D → TransportStats D
  get_stats s = s.stats

  unfoldable pub on_state_change : ℕ → WebRtcTransport D → WebRtcTransport D
  on_state_change h s = record s { state_handlers = add h s.state_handlers }

  unfoldable pub on_data : ℕ → WebRtcTransport D → WebRtcTransport D
  on_data h s = record s { data_handlers = add h s.data_handlers }

  unfoldable pub on_error : ℕ → WebRtcTransport D → WebRtcTransport D
  on_error h s = record s { error_handlers = add h s.error_handlers }

  unfoldable pub on_stats : ℕ → WebRtcTransport D → WebRtcTransport D
  on_stats h s = record s { stats_handlers = add h s.stats_handlers }

  -- The functions that the four above return.
  unfoldable pub off_state_change : ℕ → WebRtcTransport D → WebRtcTransport D
  off_state_change h s = record s { state_handlers = delete h s.state_handlers }

  unfoldable pub off_data : ℕ → WebRtcTransport D → WebRtcTransport D
  off_data h s = record s { data_handlers = delete h s.data_handlers }

  unfoldable pub off_error : ℕ → WebRtcTransport D → WebRtcTransport D
  off_error h s = record s { error_handlers = delete h s.error_handlers }

  unfoldable pub off_stats : ℕ → WebRtcTransport D → WebRtcTransport D
  off_stats h s = record s { stats_handlers = delete h s.stats_handlers }
