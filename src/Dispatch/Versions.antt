-- ===== src/Dispatch/Versions.antt =====
-- internal/dispatch/grpc.go: the versions of agents, and the URL of an update (buildBinaryURL of
-- internal/dispatch/install_handlers.go).
use Prim.Native.String.{◌++◌}
use Prim.Native.Char.{code}
use subnetree.Prelude.{
  ℕ, ◌-◌, String, Bool, true, false, not, ◌||◌, [], ◌∷◌, ◌==◌, string_eq, nat_eq, if◌then◌else◌,
}
use subnetree.Dispatch.Server.{
  Server, VersionStatus, version_ok, version_deprecated, version_rejected, version_update_available,
}

unfoldable pub current_proto_version : ℕ
current_proto_version = 1

unfoldable pub check_proto_version : ℕ → VersionStatus
unfolding current_proto_version
check_proto_version v =
    if v == current_proto_version
    then version_ok
    else if v == current_proto_version - 1
    then version_deprecated
    else version_rejected

unfoldable pub normalize_semver : String → String
normalize_semver String.[] = ""
normalize_semver (String.◌∷◌ c s) = if code c == b'v' then String.◌∷◌ c s else "v" ++ String.◌∷◌ c s

-- Package semver's IsValid and Compare are parameters.
unfoldable pub check_agent_version : Server → String → VersionStatus
check_agent_version server agent_version =
    let agent = normalize_semver agent_version in
    let own = normalize_semver server.version in
    if not (server.is_valid_semver agent) || not (server.is_valid_semver own)
    then version_ok
    else if server.is_older agent own
    then version_update_available
    else version_ok

unfoldable pub split_platform_arch : Server → String → String × String
split_platform_arch server platform = elim (server.split_at_slash platform) [
  | [] ↦ (platform, "amd64")
  | goos ∷ rest ↦ elim rest [
    | [] ↦ (platform, "amd64")
    | goarch ∷ more ↦ elim more [ [] ↦ (goos, goarch) | _ ∷ _ ↦ (platform, "amd64") ]
  ]
]

unfoldable pub build_binary_url : Server → String → String → String
build_binary_url server platform arch =
    let plain = "scout_" ++ (platform ++ ("_" ++ arch)) in
    let binary_name = if platform == "windows" then plain ++ ".exe" else plain in
    if server.version == "dev"
    then "https://github.com/HerbHall/subnetree/releases/latest/download/" ++ binary_name
    else "https://github.com/HerbHall/subnetree/releases/download/v"
      ++ (server.version ++ ("/" ++ binary_name))

unfoldable pub merge_status : VersionStatus → VersionStatus → VersionStatus
merge_status version_ok agent = agent
merge_status version_deprecated agent = version_deprecated
merge_status version_rejected agent = version_rejected
merge_status version_update_available agent = version_update_available

unfoldable pub update_url : Server → VersionStatus → String → String
update_url server version_update_available platform =
    let (goos, goarch) = split_platform_arch server platform in build_binary_url server goos goarch
update_url server version_ok platform = ""
update_url server version_deprecated platform = ""
update_url server version_rejected platform = ""

unfoldable pub is_rejected : VersionStatus → Bool
is_rejected version_rejected = true
is_rejected version_ok = false
is_rejected version_deprecated = false
is_rejected version_update_available = false
