-- ===== src/FileHandler.antt =====
-- `class FileHandler` and `class PathUtils` of utils/FileHandler.h and utils/FileHandler.cpp over a
-- store that maps the path of each file to its bytes. Every file of the store can be opened and read;
-- where else there are directories, and what can be written, is an argument.
pub mod Laws
pub mod Buffers
pub mod Directories
mod Tests
use linux_cpp_file_server.Base.{
  ℕ, zero, suc, ◌+◌, ◌-◌, Bool, true, false, ◌||◌, ◌&&◌, leb, List, [], ◌∷◌, ◌++◌, Option, none,
  some, ltb, ◌==◌, if◌then◌else◌, length, take, drop, replicate,
}
use Prim.Native.Nat.{◌^◌}
use mathlib.Core.List.{map}
use linux_cpp_file_server.Base.Bytes.{
  Bytes, codes, bytes_eq, find_last, starts_with, Dictionary, lookup, insert, contains,
}
use linux_cpp_file_server.Base.Integers.{ℤ, pos, negsuc}
use linux_cpp_file_server.Base.Outcome.{
  Outcome, ok, throws, exhausted, ◌>>=◌, length_error, runtime_error,
}

-- Path and content of each file.
abbrev pub Store : Type 0
Store = Dictionary

-- What follows the last occurrence of a byte, or the whole text.
unfoldable pub after_last : ℕ → Bytes → Bytes
after_last b s = elim (find_last b s) [ none ↦ s | some i ↦ drop (i + 1) s ]

-- `fs::path(path).filename()`
unfoldable pub get_file_name : Bytes → Bytes
unfolding after_last
get_file_name path = after_last b'/' path

-- `fs::path(path).extension()`: from the last dot of the file name on, unless that dot is its first
-- byte, or the name is `..`.
unfoldable pub get_extension : Bytes → Bytes
unfolding get_file_name
get_extension path =
    let name = get_file_name path in
    if bytes_eq name (codes "..")
    then []
    else elim (find_last b'.' name) [ none ↦ [] | some i ↦ if i == 0 then [] else drop i name ]

abbrev pub mime_types : Dictionary
mime_types =
    (codes ".html", codes "text/html")
    ∷ (codes ".htm", codes "text/html")
    ∷ (codes ".js", codes "text/javascript")
    ∷ (codes ".css", codes "text/css")
    ∷ (codes ".json", codes "application/json")
    ∷ (codes ".xml", codes "application/xml")
    ∷ (codes ".png", codes "image/png")
    ∷ (codes ".jpg", codes "image/jpeg")
    ∷ (codes ".gif", codes "image/gif")
    ∷ (codes ".svg", codes "image/svg+xml")
    ∷ (codes ".mp4", codes "video/mp4")
    ∷ (codes ".avi", codes "video/x-msvideo")
    ∷ (codes ".mp3", codes "audio/mpeg")
    ∷ (codes ".wav", codes "audio/wav")
    ∷ (codes ".pdf", codes "application/pdf")
    ∷ []

unfoldable pub get_mime_type : Bytes → Bytes
get_mime_type path = elim (lookup (get_extension path) mime_types) [
  | none ↦ codes "application/octet-stream"
  | some t ↦ t
]

-- What the disk says of paths: which are directories, and at which a file can be opened for writing.
-- No call of the server makes a directory or removes one: those that there are hold something.
pub record Disk : Type 0 where
  pub is_directory : Bytes → Bool
  pub opens : Bytes → Bool

-- `Exists(path)`: directories exist too.
unfoldable pub exists : Disk → Bytes → Store → Bool
exists disk path files = contains path files || disk.is_directory path

abbrev pub or_fail : Option Bytes → Outcome Bytes
or_fail none = throws runtime_error
or_fail (some content) = ok content

-- `readFileBinary(path)` and `readFileText(path)`
unfoldable pub read_file : Bytes → Store → Outcome Bytes
read_file path files = or_fail (lookup path files)

-- `getFileSize(path)`
unfoldable pub get_file_size : Bytes → Store → Outcome ℕ
get_file_size path files = or_fail (lookup path files) >>= λ content. ok (length content)

-- The bytes that `read` leaves in a string of `size` zeros.
abbrev pub fill : ℕ → Bytes → Bytes
fill size s = take size s ++ replicate (size - length s) 0

-- `seekg(begin)`, then a read of `end - begin` bytes, an `int` that wraps where it overflows, and is
-- too much for a string if it is negative; a negative position fails, and the string keeps its zeros.
unfoldable pub read_between : Bytes → ℤ → ℤ → Outcome Bytes
read_between content (pos b) (pos e) =
    if ltb e b then throws length_error else ok (fill (e - b) (drop b content))
read_between content (pos b) (negsuc e) =
    if leb (e + suc b) (2 ^ 31)
    then throws length_error
    else ok (fill (2 ^ 32 - (e + suc b)) (drop b content))
read_between content (negsuc b) (pos e) =
    if ltb (e + suc b) (2 ^ 31) then ok (replicate (e + suc b) 0) else throws length_error
read_between content (negsuc b) (negsuc e) =
    if ltb b e then throws length_error else ok (replicate (b - e) 0)

-- `readFileBinary(path, begin, end)`
unfoldable pub read_file_range : Bytes → ℤ → ℤ → Store → Outcome Bytes
unfolding read_between
read_file_range path begin end files =
    or_fail (lookup path files) >>= λ content. read_between content begin end

-- `writeFileBinary(path, data)`
unfoldable pub write_file : Disk → Bytes → Bytes → Store → Outcome Store
write_file disk path content files =
    if disk.opens path then ok (insert path content files) else throws runtime_error

-- The store without a file.
unfoldable pub remove : Bytes → Store → Store
remove path [] = []
remove path ((p, c) ∷ files) =
    if bytes_eq p path then remove path files else (p, c) ∷ remove path files

-- `deleteFile(path)`: whether a file was there, and the store without it; a directory that holds
-- something throws.
unfoldable pub delete_file : Disk → Bytes → Store → Outcome (Bool × Store)
unfolding remove
delete_file disk path files =
    if disk.is_directory path
    then throws runtime_error
    else ok (contains path files, remove path files)

-- `ListFiles(directory)`: the paths below a directory.
unfoldable pub list_files : Bytes → Store → List Bytes
list_files directory [] = []
list_files directory ((p, c) ∷ files) =
    let rest = list_files directory files in
    if starts_with (directory ++ b'/' ∷ []) p then p ∷ rest else rest

-- `std::filesystem::rename`: the file has another path, and replaces what was there.
unfoldable pub move_file : Bytes → Bytes → Store → Outcome (Bool × Store)
unfolding remove
move_file source target files = elim (lookup source files) [
  | none ↦ throws runtime_error
  | some content ↦ ok (true, insert target content (remove source files))
]

abbrev pub to_lower : ℕ → ℕ
to_lower c = if leb b'A' c && leb c b'Z' then c + 32 else c

unfoldable pub is_binary_file : Bytes → Bool
unfolding get_extension
is_binary_file path =
    let extension = map to_lower (get_extension path) in
    bytes_eq extension (codes ".exe")
    || bytes_eq extension (codes ".dll")
    || bytes_eq extension (codes ".so")

unfoldable pub is_absolute_path : Bytes → Bool
is_absolute_path path = starts_with (codes "/") path
