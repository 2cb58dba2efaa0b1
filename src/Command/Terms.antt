-- ===== src/Command/Terms.antt =====
-- The terms of leadership that helper/manager.go begins, as the firehoses under command/ see them.
use nomad_firehose.Base.{◌≤◌, ◌≡◌, List, arith, is_some}
use nomad_firehose.Helper.Process.{Process, Reach, listening}
use nomad_firehose.Helper.Process.Laws.{uninterrupted_terms}
use nomad_firehose.Command.Lifecycle.{Package, Call, calls, new_stop_ch, stops, is_made, first_stop}

-- In every state that the manager's two goroutines reach before an interrupt came, for any calls
-- of `Start` and `Stop` on a new firehose with no more of `Stop` than terms have begun, in any
-- order, since `Start` runs in a goroutine of its own: they run without a panic of `Stop`, but
-- for deployments exactly when `Stop` comes before every `Start`, where it closes a `nil`
-- channel.
pub early_terms_close :
    (kind : Package) {p : Process} (cs : List Call)
    → Reach p
    → p.handler ≡ listening
    → stops cs ≤ p.terms
    → is_some (calls kind (new_stop_ch kind) cs) ≡ is_made kind cs
early_terms_close kind {p} cs r e h =
    let one : p.terms ≤ 1 = uninterrupted_terms r e in first_stop kind cs (omega arith)
