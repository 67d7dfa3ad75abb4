-- ===== src/Queue/ReadTests.antt =====
-- Runs of the look-ups by message and of the statistics.
use eyle.Value.{lookup, equals_num, obj}
use eyle.Queue.Tests.{with_jobs, raw_job, question, done_job, running_job}
use eyle.Queue.Statistics.{estatisticas, worker_of, oldest_processing}
use eyle.Queue.Rows.{Db, stored, pending}
use eyle.Queue.Messages.{jobs_da_mensagem_ativos, jobs_pergunta_ativos, ativos_of}
use mathlib.Core.Path.{refl}
use eyle.Base.{true, ◌≡◌, map, false, ◌∷◌, []}

abbrev three_jobs : Db
three_jobs =
    with_jobs (raw_job 1 (stored (obj question)) pending false ∷ done_job ∷ running_job ∷ [])

message_jobs : map (λ a. a.id) (jobs_da_mensagem_ativos 7 three_jobs) ≡ 1 ∷ 3 ∷ []
unfolding jobs_da_mensagem_ativos jobs_pergunta_ativos ativos_of lookup equals_num
message_jobs = refl

blocked :
    (estatisticas (λ p. true) 90_000_000 30_000_000 60_000_000 three_jobs).head_of_line_blocked
    ≡ true
unfolding estatisticas worker_of oldest_processing mathlib.Core.Option.bind
blocked = refl
