-- ===== src/Tests/Interface.antt =====
-- The firehoses over an HTTP sink with one writer, with client libraries that count their calls.
use nomad_firehose.Base.{
  inl, inr, map, Option, ℕ, ◌≡◌, refl, true, false, ◌<◌, length, List, [], ◌∷◌, some, arith,
}
use nomad_firehose.Base.Int.{pos}
use nomad_firehose.Base.Order.{index_order}
use nomad_firehose.Go.Value.{Bytes}
use nomad_firehose.Command.Publish.{publish}
use nomad_firehose.Command.Delivery.{Done}
use nomad_firehose.Command.Allocations
use nomad_firehose.Command.EndToEnd.{firehose}
use nomad_firehose.Command.Jobs
use nomad_firehose.Command.Evaluations
use nomad_firehose.Command.Evaluations.Runs.{newest_delivered}
use nomad_firehose.Sink.Mailbox.Laws.{Holds}
use mathlib.Core.List.{mem-cons_self}
use nomad_firehose.Command.Reads.{ended}
use nomad_firehose.Command.Watch.{Response, round, visit, turns, listed, failed}
use nomad_firehose.Command.Watch.History.{IsHistory}
use nomad_firehose.Command.Watch.Keys.{keyed}
use nomad_firehose.Command.Nomad.{JobListStub}
use nomad_firehose.Command.Delivery.{index_of}
use nomad_firehose.Command.AnySink.{
  Tells, HandsOver, Listed, change_of, events_delivered, nodes_delivered, job_stubs_delivered,
}
use nomad_firehose.Sink.Config
use nomad_firehose.Sink.Queue
use nomad_firehose.Sink.Run
use nomad_firehose.Sink.Calls.{connected}
use nomad_firehose.Sink.Http
use nomad_firehose.Sink.Start.{worker_ids, waits}
use nomad_firehose.Sink.Interface.{SinkInterface, Reach, begin, put}
use nomad_firehose.Sink.Launch.{Libraries, implementation}
use nomad_firehose.Sink.Launch.Settle.{SomeWriter, Completes, sink_completes, sink_stuck}
use nomad_firehose.Sink.Mailbox.{bag}
use nomad_firehose.Tests.Services.{counting, counter}
use nomad_firehose.Tests.Watchers.{answers, answers-IsHistory, rising_answers, rising-EventsRise}
use nomad_firehose.Tests.Whole.{marshal, at_three_firehose}
use nomad_firehose.Tests.Reads.{nodes_at_five, three_reads, three_reads-Reach, swapped}
use nomad_firehose.Tests.Reads

abbrev pub libraries : Libraries
libraries = record {
  World = ℕ;
  world = 0;
  post = counting;
  channel = λ id. true;
  publish = counting;
  close_connection = λ n. n;
  Document = Bytes;
  unmarshal = some;
  insert_one = counting;
  disconnect = λ n. n;
  send_message = counting;
  put_record = counting;
  nsq_publish = counting;
  pool = counter;
  conns = 0;
  rpush = counting;
  close_pool = λ n. n;
  dial = λ proto addr priority tag. true;
  log = counting;
}

abbrev pub one_writer : Config.Sink
one_writer = Config.http "http://sink" (pos 1)

abbrev pub k : SinkInterface
k = implementation libraries one_writer

-- The messages wait in the channel.
abbrev pub waiting : List Bytes → k.State
waiting ds = record {
  queue = record { put_ch = ds; held = []; attempted = []; closed = false };
  wire = record { posts = connected 0; deferred = 0 };
}

put_one : (d : Bytes) → Reach k (d ∷ []) (waiting (d ∷ []))
unfolding Run.try_put Queue.try_put
put_one d = put d begin refl

pub put_two : (d e : Bytes) → Reach k (d ∷ e ∷ []) (waiting (d ∷ e ∷ []))
unfolding Run.try_put Queue.try_put
put_two d e = put e (put_one d) refl

pub one_writer_starts :
    0 < length (Http.start (record { address = "http://sink"; worker_count = pos 1 })).writers
unfolding Http.start worker_ids
one_writer_starts = omega arith

sink_completes_example :
    Completes libraries one_writer
      (waiting ((1 ∷ []) ∷ [] ∷ []))
      (λ b. b ≡ bag ((1 ∷ []) ∷ [] ∷ []))
sink_completes_example =
    sink_completes libraries one_writer one_writer_starts (put_two (1 ∷ []) []) refl

allocation_put :
    Reach k
      (firehose marshal at_three_firehose rising_answers).1
      (waiting ((1 ∷ []) ∷ (1 ∷ []) ∷ []))
unfolding firehose Allocations.start_watch Allocations.watch Allocations.watch_round publish
allocation_put = put_two (1 ∷ []) (1 ∷ [])

events_delivered_example :
    Completes libraries one_writer
      (waiting ((1 ∷ []) ∷ (1 ∷ []) ∷ []))
      (λ b. Tells marshal (pos 3) b rising_answers)
events_delivered_example =
    events_delivered libraries one_writer marshal at_three_firehose rising_answers
      (waiting ((1 ∷ []) ∷ (1 ∷ []) ∷ [])) rising-EventsRise one_writer_starts allocation_put refl

nodes_delivered_example :
    Done 5 (λ x. x.id) (ended three_reads) answers
    × Completes libraries one_writer
        (waiting ([] ∷ (1 ∷ []) ∷ []))
        (λ b. HandsOver Reads.marshal b three_reads)
nodes_delivered_example =
    nodes_delivered libraries one_writer Reads.marshal nodes_at_five answers three_reads
      ([] ∷ (1 ∷ []) ∷ []) (waiting ([] ∷ (1 ∷ []) ∷ [])) answers-IsHistory three_reads-Reach refl
      swapped one_writer_starts (put_two [] (1 ∷ [])) refl

-- The job is listed at 8 with one status, and then with another.
abbrev listing : ℕ → Bytes → JobListStub
listing i others = record { id = "job"; modify_index = i; others = others }

abbrev stub_answers : List (Response JobListStub)
stub_answers =
    listed (listing 8 (1 ∷ []) ∷ []) 8 ∷ listed (listing 8 (2 ∷ []) ∷ listing 9 [] ∷ []) 9 ∷ []

abbrev stub_json : JobListStub → Option Bytes
stub_json s = some (s.modify_index ∷ s.others)

stubs_IsHistory : IsHistory index_of 5 5 [] (map (keyed change_of index_of) stub_answers)
stubs_IsHistory = inr (
  omega arith,
  (inr (refl, tt), tt),
  inr (omega arith, (inl (λ e. mem-cons_self), (inr (refl, (refl, tt)), tt)), tt),
)

stubs_put :
    Reach k
      (Jobs.watch
        (λ y. y.modify_index)
        (Jobs.watch_job_list_stub stub_json)
        (record { last_change_index = 5 })
        stub_answers).1
      (waiting ((8 ∷ 1 ∷ []) ∷ (9 ∷ []) ∷ []))
unfolding Jobs.watch Jobs.watch_round Jobs.start_watch Jobs.watch_job_list_stub turns round visit
    publish
stubs_put = put_two (8 ∷ 1 ∷ []) (9 ∷ [])

job_stubs_delivered_example :
    Completes libraries one_writer
      (waiting ((8 ∷ 1 ∷ []) ∷ (9 ∷ []) ∷ []))
      (λ b. Listed stub_json 5 b stub_answers)
job_stubs_delivered_example =
    job_stubs_delivered libraries one_writer stub_json (record { last_change_index = 5 })
      stub_answers (waiting ((8 ∷ 1 ∷ []) ∷ (9 ∷ []) ∷ [])) stubs_IsHistory one_writer_starts
      stubs_put refl

-- A sink with no worker.
abbrev pub no_writer : Config.Sink
no_writer = Config.http "http://sink" (pos 0)

pub no_writer_starts : ¬ SomeWriter libraries no_writer
unfolding Http.start worker_ids
no_writer_starts w = absurd (omega (arith, w))

pub one_kept : Reach (implementation libraries no_writer) ((1 ∷ []) ∷ []) (waiting ((1 ∷ []) ∷ []))
unfolding Run.try_put Queue.try_put
one_kept = put (1 ∷ []) begin refl

sink_stuck_example :
    ((implementation libraries no_writer).stop (waiting ((1 ∷ []) ∷ [])) ≡ waits)
    × (((implementation libraries no_writer).view (waiting ((1 ∷ []) ∷ []))).finished ≡ bag [])
sink_stuck_example = sink_stuck libraries no_writer no_writer_starts one_kept

-- Evaluations at 5: the change with index 7 is published once the next answer has come.
abbrev eval_json : Evaluations.Evaluation → Option Bytes
eval_json e = some (e.modify_index ∷ [])

abbrev evaluation_seven : Evaluations.Evaluation
evaluation_seven = record { id = "e"; modify_index = 7 }

two_answers :
    Reach k
      (Evaluations.firehose eval_json
        (record { last_change_index = 5 })
        (listed (evaluation_seven ∷ []) 7 ∷ failed ∷ listed (evaluation_seven ∷ []) 8 ∷ [])).1
      (waiting ((7 ∷ []) ∷ []))
unfolding Evaluations.firehose Evaluations.start_watch Evaluations.watch Evaluations.watch_round
    Evaluations.visit publish
two_answers = put_one (7 ∷ [])

newest_delivered_example :
    Completes libraries one_writer
      (waiting ((7 ∷ []) ∷ []))
      (Holds (publish eval_json evaluation_seven))
newest_delivered_example =
    newest_delivered libraries one_writer eval_json (record { last_change_index = 5 }) []
      (failed ∷ []) [] (evaluation_seven ∷ []) (evaluation_seven ∷ []) 7 8 evaluation_seven
      (waiting ((7 ∷ []) ∷ [])) (tt, tt) (omega arith) mem-cons_self refl one_writer_starts
      two_answers refl
