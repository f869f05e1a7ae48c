-- ===== src/Store/Calls.antt =====
-- The calls of the store that return one object.
use simple_api_server.Kube.Outcome.{Outcome}
use simple_api_server.Api.{Object}
use simple_api_server.Store
use simple_api_server.Store.{Key, Store}

pub data Call : Type 0 where
  get : Key → Call
  create : Key → Object → Call
  update : Key → Object → Call
  delete : Key → Call

unfoldable pub perform : Call → Store → Outcome Object × Store
unfolding Store.get Store.create Store.update Store.delete
perform (get k) s = (Store.get k s, s)
perform (create k o) s = Store.create k o s
perform (update k o) s = Store.update k o s
perform (delete k) s = Store.delete k s
