-- ===== src/Tests/Database/Served.antt =====
-- The application on the database of the tests.
use kyc_agent_nordvik.Python.{Score}
use kyc_agent_nordvik.Effects.{Outcome, raised}
use kyc_agent_nordvik.Effects.Ensures.{Ensures, IfOk}
use kyc_agent_nordvik.Audit.Sink.{Payload, AuditSink}
use kyc_agent_nordvik.Llm.Live.{ChatModel}
use kyc_agent_nordvik.Llm.Factory.{ModelRequest}
use kyc_agent_nordvik.Graph.Context.{default_settings, postgres}
use kyc_agent_nordvik.Persistence.Db
use kyc_agent_nordvik.Persistence.Db.{setup_postgres}
use kyc_agent_nordvik.Api.Application.{Parts, start}
use kyc_agent_nordvik.Api.Application.Started.{IsServing, start-IsServing}
use kyc_agent_nordvik.Samples.{today, plain_python}
use kyc_agent_nordvik.Tests.Incomplete.{no_patterns}
use kyc_agent_nordvik.Tests.Database.{Disk, disk_pool, plain_codec}

abbrev disk_sink : AuditSink Disk
disk_sink = Db.postgres disk_pool plain_codec

abbrev no_model : ModelRequest → Outcome (ChatModel Disk)
no_model request = raised (record { type_name = "ImportError"; message = "no such provider" })

abbrev never_fails : Disk → Score × Disk
never_fails d = (500000, d)

abbrev disk_parts : Parts Disk Payload
disk_parts = record {
  python = plain_python;
  patterns = no_patterns;
  init = no_model;
  random_sanctions = never_fails;
  random_pep = never_fails;
  memory = disk_sink;
  today = today;
  create_pool = λ url. disk_pool;
  codec = plain_codec;
  now = λ d. d.1;
}

start-IsServing_example :
    Ensures
      (start disk_parts default_settings)
      (IfOk (IsServing disk_parts default_settings postgres))
start-IsServing_example = start-IsServing disk_parts default_settings
