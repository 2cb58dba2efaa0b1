-- ===== src/Sink/Http.antt =====
-- sink/http.go. The server behind the address is a parameter.
pub mod Laws
use nomad_firehose.Base.{
  length, ℕ, ◌+◌, true, false, List, [], ◌∷◌, ◌++◌, Bool, String, if◌then◌else◌,
}
use nomad_firehose.Base.Int.{ℤ}
use nomad_firehose.Go.Value.{Bytes}
use nomad_firehose.Sink.Start.{Started, worker_ids}
use nomad_firehose.Sink.Calls.{Calls, call, connected}
use nomad_firehose.Sink.Service.{service_sink}
use nomad_firehose.Sink.Interface.{SinkInterface}

pub record HttpSink : Type 0 where
  pub address : String
  pub worker_count : ℤ

unfoldable pub start : HttpSink → Started
start s = record { writers = worker_ids s.worker_count; batches = false; waits = true }

-- A request: the address and the body.
abbrev pub Post : Type 0
Post = String × Bytes

-- The requests of a writer, and its calls of `resp.Body.Close()` that are deferred to its end, which the
-- loop never comes to: so many bodies are open.
pub record Posting (S : Type 0) : Type 0 where
  pub posts : Calls S Post
  pub deferred : ℕ

module _ {S : Type 0} (post : S → Post → S × Bool) (s : HttpSink) where
  -- The body of the loop of `send`.
  unfoldable pub send : Posting S → Bytes → Posting S
  unfolding call
  send w d =
      let (_, fine) = post w.posts.service (s.address, d) in
      record {
        posts = call post w.posts (s.address, d);
        deferred = if fine then w.deferred + 1 else w.deferred;
      }

  -- The sink as a whole, of a client in that state.
  abbrev pub implementation : S → SinkInterface
  implementation service =
      service_sink (start s) (length (start s).writers) send (λ w. w)
        (record { posts = connected service; deferred = 0 })
