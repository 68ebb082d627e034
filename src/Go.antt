-- ===== src/Go.antt =====
-- What the program uses of Go's packages strings, strconv, net, os and path/filepath.
pub mod Strings
pub mod Strconv
pub mod Net
pub mod Os
pub mod Filepath
