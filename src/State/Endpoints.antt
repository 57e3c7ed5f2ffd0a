-- ===== src/State/Endpoints.antt =====
-- The endpoints that a query, the normalization and a loop over the entries refresh.
use aiotruenas.Base.{[], string_eq}
use aiotruenas.Specs.Tasks.{
  cloudsync_vals, replication_vals, rsync_vals, snapshottask_vals, cronjob_vals,
  cronjob_ensure_vals,
}
use aiotruenas.Specs.Services.{
  service_vals, service_ensure_vals, vm_vals, vm_ensure_vals, app_vals, app_ensure_vals,
}
use aiotruenas.Specs.System.{certificate_vals, interface_vals, interface_ensure_vals}
use aiotruenas.Specs.Storage.{scrub_vals}
use aiotruenas.State.Cache.{Cache, Server, Platform, Ended, on_reply, keyed, plain_derive, refresh}
use aiotruenas.State.Fallback.{note_primary_query_outcome}
use aiotruenas.State.Entries.{
  unchanged, settle_state, name_cronjob, derive_service, derive_vm, derive_app, note_expiry,
  note_link,
}

module _ (P : Platform) (V : Server) where
  unfoldable pub get_cloudsync : Cache → Ended × Cache
  get_cloudsync =
      on_reply (V.call "cloudsync.query")
        (refresh P "cloudsync" (keyed "id" cloudsync_vals []) unchanged)

  unfoldable pub get_replication : Cache → Ended × Cache
  get_replication = on_reply (V.call "replication.query") (
      refresh P "replication" (keyed "id" replication_vals [])
        (plain_derive (λ k vals. settle_state vals)))

  unfoldable pub get_rsync : Cache → Ended × Cache
  get_rsync =
      on_reply (V.call "rsynctask.query")
        (refresh P "rsynctask" (keyed "id" rsync_vals []) unchanged)

  unfoldable pub get_snapshottask : Cache → Ended × Cache
  get_snapshottask =
      on_reply (V.call "pool.snapshottask.query")
        (refresh P "snapshottask" (keyed "id" snapshottask_vals []) unchanged)

  unfoldable pub get_cronjob : Cache → Ended × Cache
  get_cronjob = on_reply (V.call "cronjob.query") (
      refresh P "cronjob" (keyed "id" cronjob_vals cronjob_ensure_vals)
        (plain_derive (name_cronjob P.format_key)))

  unfoldable pub get_service : Cache → Ended × Cache
  get_service = on_reply (V.call "service.query") λ raw s.
      refresh P "service" (keyed "id" service_vals service_ensure_vals) derive_service raw
        (note_primary_query_outcome "service_query" raw s)

  unfoldable pub get_vm : Cache → Ended × Cache
  get_vm = on_reply (V.call "vm.query") λ raw s.
      refresh P "vm" (keyed "id" vm_vals vm_ensure_vals) (derive_vm P) raw
        (note_primary_query_outcome "vm_query" raw s)

  unfoldable pub get_app : Cache → Ended × Cache
  get_app =
      on_reply (V.call "app.query")
        (refresh P "app" (keyed "id" app_vals app_ensure_vals) derive_app)

  unfoldable pub get_certificates : Cache → Ended × Cache
  get_certificates = on_reply (V.call "certificate.query") (
      refresh P "certificate" (keyed "name" certificate_vals [])
        (plain_derive (λ k vals. note_expiry V.now vals)))

  unfoldable pub get_interface : Cache → Ended × Cache
  get_interface = on_reply (V.call "interface.query") λ raw s.
      refresh P "interface" (keyed "id" interface_vals interface_ensure_vals)
        (plain_derive (λ k vals. note_link vals)) raw
        (note_primary_query_outcome "interface_query" raw s)

  unfoldable pub get_scrub : Cache → Ended × Cache
  get_scrub = on_reply (V.call "pool.scrub.query") λ raw s.
      refresh P "scrub" (keyed "id" scrub_vals []) unchanged raw
        (note_primary_query_outcome "scrub_query" raw s)
