-- ===== src/DockerUtils/Client.antt =====
-- The functions of dockerUtils/dockerUtils.go that talk to the Docker daemon. The daemon and the
-- directories of the host are parameters: what they answer is a function of what was asked before.
use sysbox_libs.Prelude.{
  Bool, Bytes, List, Option, Result, [], codes, err, if◌then◌else◌, none, ok, some, ℕ, ◌++◌, ◌==◌,
  ◌∷◌, nat_comparable, bytes_comparable,
}
use sysbox_libs.Prelude.Table.{Table, lookup}

pub data ErrCode : Type 0 where
  conn_err disc_err info_err cont_info_err other_err : ErrCode

pub record DockerErr : Type 0 where
  pub code : ErrCode
  pub msg : Bytes

unfoldable pub new_docker_err : ErrCode → Bytes → DockerErr
new_docker_err code msg = record { code = code; msg = msg }

-- `Error`
unfoldable pub error_text : DockerErr → Bytes
error_text e = e.msg

pub record ContainerInfo : Type 0 where
  pub rootfs : Bytes
  pub auto_remove : Bool

-- What the daemon tells of a container and of a volume, as far as it is looked at.
pub record Container : Type 0 where
  pub graph_driver : Option (Bytes × Table Bytes Bytes)
  pub auto_remove : Bool

pub record Volume : Type 0 where
  pub name : Bytes
  pub mountpoint : Bytes

pub data Ask : Type 0 where
  new_client info close_client volume_list : Ask
  container_list container_inspect open_path : Bytes → Ask
  read_dir_names : Bytes → ℕ → Ask

pub record World : Type 0 where
  pub connect : List Ask → Option Bytes
  pub root_dir : List Ask → Result Bytes Bytes
  pub close : List Ask → Option Bytes
  pub containers : List Ask → Bytes → Result Bytes (List Bytes)
  pub inspect : List Ask → Bytes → Result Bytes Container
  pub volumes : List Ask → Result Bytes (List Volume)
  pub open_dir : List Ask → Bytes → Option Bytes
  -- `Readdirnames`, with the most names that it is to give.
  pub dir_names : List Ask → Bytes → ℕ → Result Bytes (List Bytes)

pub record Docker : Type 0 where
  pub data_root : Bytes

-- What was asked, and the result.
abbrev pub Session : Type 0 → Type 0
Session A = List Ask → List Ask × A

abbrev pub Answer : Type 0 → Type 0
Answer A = Result DockerErr A

unfoldable pub info_failure : Bytes → Option Bytes → DockerErr
info_failure e none = new_docker_err info_err (codes "failed to retrieve Docker info: " ++ e)
info_failure e (some e2) = new_docker_err info_err (
    codes "failed to retrieve Docker info ("
    ++ (e ++ (codes ") and disconnect from Docker API (" ++ (e2 ++ codes ")"))))

-- The image of the one container that matches. The message for more than one is given without the
-- list that ends it.
unfoldable pub single_image : Bytes → List Bytes → Answer Bytes
single_image id [] =
    err (new_docker_err cont_info_err (codes "container " ++ (id ++ codes " not found")))
single_image id (image ∷ []) = ok image
single_image id (image ∷ i ∷ images) =
    err (new_docker_err cont_info_err (codes "more than one container matches ID " ++ id))

unfoldable pub image_of : Bytes → Result Bytes (List Bytes) → Answer Bytes
image_of id (err e) = err (new_docker_err cont_info_err e)
image_of id (ok images) = single_image id images

-- A key that is missing gives the empty text.
unfoldable pub value_at : Option Bytes → Bytes
value_at none = []
value_at (some v) = v

unfoldable pub merged_dir : Option (Bytes × Table Bytes Bytes) → Bytes
merged_dir none = []
merged_dir (some (name, driver_data)) =
    if name == codes "overlay2" then value_at (lookup (codes "MergedDir") driver_data) else []

unfoldable pub info_of_container : Result Bytes Container → Result Bytes ContainerInfo
info_of_container (err e) = err e
info_of_container (ok c) =
    ok (record { rootfs = merged_dir c.graph_driver; auto_remove = c.auto_remove })

-- The loop stops at the first volume that matches.
unfoldable pub volumes_at : Bytes → List Volume → List Volume
volumes_at mount_point [] = []
volumes_at mount_point (v ∷ vs) =
    let rest = volumes_at mount_point vs in if v.mountpoint == mount_point then v ∷ [] else rest

unfoldable pub filtered : Bytes → Result Bytes (List Volume) → Result Bytes (List Volume)
filtered mount_point (err e) = err e
filtered mount_point (ok vs) = ok (volumes_at mount_point vs)

module _ (world : World) where
  unfoldable pub on_info : Result Bytes Bytes → Session (Answer Docker)
  on_info (ok root) asks = (asks, ok (record { data_root = root }))
  on_info (err e) asks = (close_client ∷ asks, err (info_failure e (world.close asks)))

  unfoldable pub on_client : Option Bytes → Session (Answer Docker)
  on_client (some e) asks =
      (asks, err (new_docker_err conn_err (codes "failed to connect to Docker API: " ++ e)))
  on_client none asks = on_info (world.root_dir asks) (info ∷ asks)

  unfoldable pub docker_connect : Session (Answer Docker)
  docker_connect asks = on_client (world.connect asks) (new_client ∷ asks)

  unfoldable pub disconnected : Option Bytes → Answer (Unit {0})
  disconnected none = ok tt
  disconnected (some e) =
      err (new_docker_err disc_err (codes "failed to disconnect from Docker API: " ++ e))

  unfoldable pub disconnect : Session (Answer (Unit {0}))
  disconnect asks = (close_client ∷ asks, disconnected (world.close asks))

  unfoldable pub get_data_root : Docker → Bytes
  get_data_root d = d.data_root

  unfoldable pub container_get_image_id : Bytes → Session (Answer Bytes)
  container_get_image_id id asks =
      (container_list id ∷ asks, image_of id (world.containers asks id))

  unfoldable pub container_get_info : Bytes → Session (Result Bytes ContainerInfo)
  container_get_info id asks =
      (container_inspect id ∷ asks, info_of_container (world.inspect asks id))

  unfoldable pub list_volumes_at : Bytes → Session (Result Bytes (List Volume))
  list_volumes_at mount_point asks = (volume_list ∷ asks, filtered mount_point (world.volumes asks))
