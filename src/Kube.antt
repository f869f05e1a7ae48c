-- ===== src/Kube.antt =====
-- What the program takes from k8s.io: the data it exchanges with those packages. The code behind
-- it is not in this repository; `Kube.Library` has its functions as parameters.
pub mod Meta
pub mod Errors
pub mod Outcome
pub use Meta.*
pub use Errors.*
