-- ===== src/Store/Manifest/Runs.antt =====
-- store.cc, the manifest of generation 3.
use minweight_store_cpp.Base.{arith}
use minweight_store_cpp.Store.Manifest.RoundTrip.{ManifestAnswer, manifest_lem}

manifest_lem_example : ManifestAnswer 3
manifest_lem_example = manifest_lem 3 (omega arith)
