-- ===== src/Samples.antt =====
-- Concrete values of the interfaces of Sdk.antt, for the examples: a packet is its data and the
-- data of the packet before it, a hash of bytes is the bytes themselves, a disk is a function.
use wolk_connect_cpp.Base.{
  ◌+◌, ◌-◌, ◌/◌, String, ◌≡◌, refl, true, List, Option, none, some, [], ◌∷◌, ByteArray, bytes_eq,
  is_nil, not, if◌then◌else◌, str_eq, is_some, str_eq_refl, str_eq_iff, arith,
}
use wolk_connect_cpp.FileRepository.{FileInfo, FileRepository, Keeps, contains}
use wolk_connect_cpp.Sdk.{BinaryDataApi, FileSystem, Doubles}

pub record Packet : Type 0 where
  pub payload : ByteArray
  pub before : ByteArray

abbrev pub sample_api : BinaryDataApi
sample_api = record {
  BinaryData = Packet;
  valid = λ p. not (is_nil p.payload);
  validate_first = λ p. is_nil p.before;
  validate_previous = λ p hash. bytes_eq p.before hash;
  get_data = λ p. p.payload;
  get_hash = λ p. p.payload;
}

abbrev pub write : (String → Option ByteArray) → String → ByteArray → String → Option ByteArray
write disk path bytes other = if str_eq other path then some bytes else disk other

abbrev pub erase : (String → Option ByteArray) → String → String → Option ByteArray
erase disk path other = if str_eq other path then none else disk other

abbrev pub sample_sys : FileSystem
sample_sys = record {
  Disk = String → Option ByteArray;
  hash_sha256 = λ bytes. bytes;
  compose_path = λ file_name directory. file_name;
  absolute_path = λ path. path;
  create_binary_file_with_content = λ disk path bytes. (true, write disk path bytes);
  delete_file = λ disk path. (is_some (disk path), erase disk path);
  list_files = λ disk directory. "f" ∷ [];
  content = λ disk path. disk path;
  content-create = λ disk path bytes e. content_write disk path bytes;
}
  where
    content_write :
        (disk : String → Option ByteArray) (path : String) (bytes : ByteArray)
        → write disk path bytes path ≡ some bytes
    content_write disk path bytes = rw (str_eq_refl path)

abbrev pub sample_doubles : Doubles
sample_doubles = record {
  ceil_quotient = λ a b. (a + b - 1) / b;
  to_unsigned = λ n. n;
  ceil_quotient_exact = λ a b p q r. refl;
  to_unsigned_exact = λ n p. refl;
}

abbrev pub empty_disk : String → Option ByteArray
empty_disk path = none

abbrev pub first_packet : Packet
first_packet = record { payload = 1 ∷ 2 ∷ []; before = [] }

abbrev pub second_packet : Packet
second_packet = record { payload = 3 ∷ []; before = 1 ∷ 2 ∷ [] }

-- A packet that continues nothing.
abbrev pub stray_packet : Packet
stray_packet = record { payload = 9 ∷ []; before = 8 ∷ [] }

-- A repository that is a list of infos, the newest first.
abbrev pub info_in : List FileInfo → String → Option FileInfo
info_in [] n = none
info_in (i ∷ is) n = if str_eq i.name n then some i else info_in is n

abbrev pub info_without : String → List FileInfo → List FileInfo
info_without n [] = []
info_without n (i ∷ is) = let rest = info_without n is in if str_eq i.name n then rest else i ∷ rest

abbrev pub info_names : List FileInfo → List String
info_names [] = []
info_names (i ∷ is) = i.name ∷ info_names is

abbrev pub sample_repo : FileRepository
sample_repo = record {
  Repository = List FileInfo;
  get_file_info = λ r n. info_in r n;
  get_all_file_names = λ r. some (info_names r);
  store = λ r info. info ∷ info_without info.name r;
  remove = λ r n. info_without n r;
  remove_all = λ r. [];
  contains_info_for_file = λ r n. contains (info_names r) n;
}

info_in-info_without :
    (r : List FileInfo) (n m : String)
    → info_in (info_without n r) m ≡ (if str_eq n m then none else info_in r m)
info_in-info_without [] n m = ground arith
info_in-info_without (i ∷ is) n m =
    ground
      (arith, info_in-info_without is n m, str_eq_iff i.name n, str_eq_iff i.name m, str_eq_iff n m)

is_some-info_in :
    (r : List FileInfo) (n : String) → is_some (info_in r n) ≡ contains (info_names r) n
unfolding contains
is_some-info_in [] n = refl
is_some-info_in (i ∷ is) n = ground (arith, is_some-info_in is n)

pub sample-Keeps : Keeps sample_repo
unfolding contains
sample-Keeps = record {
  names = λ r. info_names r;
  get_all_file_names-names = λ r. refl;
  contains-names = λ r n. refl;
  get_file_info-contains = λ r n. is_some-info_in r n;
  get_file_info-remove = λ r n m. info_in-info_without r n m;
  get_file_info-store = λ r info free m. ground (arith, info_in-info_without r info.name m);
}
